-- ===== src/LlmGateway/Config/Loading.antt =====
-- What a config that `load_config` of llm_gateway/config.py accepts is fit for.
use dev_harness.Base.{
  ◌≡◌, ◌≢◌, ◌↔◌, ◌⊎◌, refl, sym, ◌∙◌, ap, subst, Bool, true, false, ◌&&◌, Option, none, some, List,
  [], ◌∷◌, ◌++◌, String, ℤ, pos, All, any, map, str_eq, eq_iff, bind-some, some-eq, Bool-cases,
  Option-cases, inl, inr, arith, if◌then◌else◌,
}
use mathlib.Core.Option
use mathlib.Core.List.{append-nil, append_assoc}
use dev_harness.Base.Dict
use dev_harness.Base.Dict.{Dict, keys, lookup-insert}
use dev_harness.Base.Text.{Text, codes, lower}
use dev_harness.LlmGateway.Config.{
  Value, Values, Fields, nil, cons, null, int, str, mapping, get, parse_policy,
}
use dev_harness.LlmGateway.Config.Backends.{
  BackendConfig, GatewayConfig, Auth, api_key_auth, entra, gcp, is_keyless, by_name, keyed,
  has_twice, parse_backend, parse_backends, parse_cache, load_config, resolve_api_key, key_in,
  from_env, refuse_if◌otherwise◌, non_empty, value_or, auth_for, profile_of, effort_for, text_or,
  credential, parse_pricing, list_of,
}
use dev_harness.LlmGateway.Policy.Ladder.{Serves, every_attempt_is_served}

-- The names of the dictionary, where no name is assigned twice.
keys-insert :
    {V : Type 0} (k : String) (v : V) (d : Dict V)
    → any (str_eq k) (keys d) ≡ false
    → keys (Dict.insert k v d) ≡ keys d ++ (k ∷ [])
unfolding Dict.insert
keys-insert k v [] h = refl
keys-insert k v ((j, w) ∷ d) h =
    let differ : str_eq j k ≡ false = ground (arith, eq_iff j k, eq_iff k j) in
    rw differ (ap (λ l. j ∷ l) (keys-insert k v d (ground arith)))

abbrev names : List BackendConfig → List String
names bs = map (λ (b : BackendConfig). b.name) bs

-- No name of the one list is in the other.
Apart : List String → List String → Type 0
Apart ns ms = All (λ n. any (str_eq n) ms ≡ false) ns

absent-append :
    (n m : String) (ms : List String)
    → any (str_eq n) ms ≡ false
    → str_eq m n ≡ false
    → any (str_eq n) (ms ++ (m ∷ [])) ≡ false
absent-append n m [] h ne = ground (arith, eq_iff m n, eq_iff n m)
absent-append n m (x ∷ ms) h ne = ground (arith, absent-append n m ms)

Apart-append :
    (ns ms : List String) (m : String)
    → any (str_eq m) ns ≡ false
    → Apart ns ms
    → Apart ns (ms ++ (m ∷ []))
unfolding Apart
Apart-append [] ms m h a = tt
Apart-append (n ∷ ns) ms m h a =
    (absent-append n m ms a.0 (ground arith), Apart-append ns ms m (ground arith) a.1)

keys-keyed :
    (bs : List BackendConfig) (d : Dict BackendConfig)
    → has_twice (names bs) ≡ false
    → Apart (names bs) (keys d)
    → keys (keyed bs d) ≡ keys d ++ names bs
unfolding has_twice Apart
keys-keyed [] d u a = sym (append-nil (keys d))
keys-keyed (b ∷ bs) d u a =
    let here = keys-insert b.name b d a.0 in
    let apart : Apart (names bs) (keys (Dict.insert b.name b d)) =
      subst (Apart (names bs)) (sym here)
        (Apart-append (names bs) (keys d) b.name (ground arith) a.1) in
    keys-keyed bs (Dict.insert b.name b d) (ground arith) apart
    ∙ ap (λ l. l ++ names bs) here
    ∙ append_assoc (keys d) (b.name ∷ []) (names bs)

Apart-nil : (ns : List String) → Apart ns []
unfolding Apart
Apart-nil [] = tt
Apart-nil (n ∷ ns) = (refl, Apart-nil ns)

keys-by_name :
    (bs : List BackendConfig) → has_twice (names bs) ≡ false → keys (by_name bs) ≡ names bs
keys-by_name bs u = keys-keyed bs [] u (Apart-nil (names bs))

-- A static key that is not empty, or none where tokens are minted.
pub HasCredential : BackendConfig → Type 0
HasCredential b = (b.api_key ≡ []) ↔ (is_keyless b.auth ≡ true)

codes-nil : (s : String) → codes s ≡ [] → s ≡ ""
codes-nil String.[] h = refl
codes-nil (String.◌∷◌ c s) h = cc

set-ne :
    (s : String) (o : Option String)
    → (if str_eq s "" then none else some s) ≡ o
    → (t : String) → o ≡ some t
    → codes t ≢ []
set-ne s o h t h' e = elim (Bool-cases (str_eq s "")) [
  | inl q ↦ let never : none ≡ o = rw q at h in cc
  | inr q ↦
      let kept : some s ≡ o = rw q at h in
      let same : s ≡ t = some-eq s t (kept ∙ h') in
      let blank : s ≡ "" = same ∙ codes-nil t e in
      let yes_blank : str_eq s "" ≡ true = (eq_iff s "").1 blank in cc
]

non_empty-ne : (v : Option Value) (s : String) → non_empty v ≡ some s → codes s ≢ []
non_empty-ne none s h = cc
non_empty-ne (some (str t)) s h = set-ne t (non_empty (some (str t))) refl s h
non_empty-ne (some _) s h = cc

-- Some text comes out, and is not empty.
Filled : Option Text → Type 0
Filled o = (key : Text) → o ≡ some key → key ≢ []

map-Filled : (v : Option Value) → Filled (Option.map codes (non_empty v))
unfolding Filled
map-Filled v key h = elim (Option-cases (non_empty v)) [
  | inl e ↦ let never : none ≡ some key = rw e at h in cc
  | inr (s, e) ↦
      let same : some (codes s) ≡ some key = rw e at h in
      λ q. non_empty-ne v s e (some-eq (codes s) key same ∙ q)
]

from_env-Filled : (env : Dict String) (v : Option Value) → Filled (from_env env v)
unfolding Filled
from_env-Filled env v key h =
    let (name, e1, h1) = bind-some (non_empty v) _ key h in
    let (value, e2, h2) = bind-some (Dict.lookup name env) _ key h1 in
    elim (Bool-cases (str_eq value "")) [
      | inl q ↦ let never : none ≡ some key = rw q at h2 in cc
      | inr q ↦
          let same : some (codes value) ≡ some key = rw q at h2 in
          λ e.
            let blank : str_eq value "" ≡ true =
              (eq_iff value "").1 (codes-nil value (some-eq (codes value) key same ∙ e)) in
            cc
    ]

choice-Filled :
    (both first second : Bool) (x y : Option Text)
    → Filled x
    → Filled y
    → Filled
        (refuse_if both otherwise if first then x else if second then y else some (codes "EMPTY"))
unfolding Filled
choice-Filled true first second x y hx hy key h = cc
choice-Filled false true second x y hx hy key h = hx key h
choice-Filled false false true x y hx hy key h = hy key h
choice-Filled false false false x y hx hy key h = λ e. cc

resolve_api_key-Filled : (env : Dict String) (raw : Fields) → Filled (resolve_api_key env raw)
unfolding resolve_api_key
resolve_api_key-Filled env raw =
    choice-Filled (key_in "api_key" raw && key_in "api_key_env" raw) (key_in "api_key" raw)
      (key_in "api_key_env" raw) _ _ (map-Filled (get "api_key" raw))
      (from_env-Filled env (get "api_key_env" raw))

credential-HasCredential :
    (env : Dict String) (raw : Fields) (auth : Auth) (key : Text)
    → credential env raw auth ≡ some key
    → (key ≡ []) ↔ (is_keyless auth ≡ true)
unfolding Filled
credential-HasCredential env raw api_key_auth key h =
    (λ e. absurd (resolve_api_key-Filled env raw key h e), λ e. cc)
credential-HasCredential env raw entra key h = (λ e. refl, λ e. cc)
credential-HasCredential env raw gcp key h = (λ e. refl, λ e. cc)

-- The backend is one of the list.
pub Listed : BackendConfig → List BackendConfig → Type 0
Listed b [] = ⊥
Listed b (x ∷ bs) = (x ≡ b) ⊎ Listed b bs

lookup-keyed :
    (bs : List BackendConfig) (d : Dict BackendConfig) (n : String) (b : BackendConfig)
    → Dict.lookup n (keyed bs d) ≡ some b
    → (Listed b bs × (b.name ≡ n)) ⊎ (Dict.lookup n d ≡ some b)
unfolding Listed
lookup-keyed [] d n b h = inr h
lookup-keyed (x ∷ bs) d n b h = elim (lookup-keyed bs (Dict.insert x.name x d) n b h) [
  | inl (listed, named) ↦ inl (inr listed, named)
  | inr found ↦ elim (Bool-cases (str_eq x.name n)) [
    | inl e ↦
        let there = sym (lookup-insert x.name n x d) ∙ found in
        let here : some x ≡ some b = rw e at there in
        let same : x ≡ b = some-eq x b here in
        inl (inl same, subst (λ y. y.name ≡ n) same ((eq_iff x.name n).0 e))
    | inr e ↦
        let there = sym (lookup-insert x.name n x d) ∙ found in
        let before : Dict.lookup n d ≡ some b = rw e at there in inr before
  ]
]

lookup-by_name :
    (bs : List BackendConfig) (n : String) (b : BackendConfig)
    → Dict.lookup n (by_name bs) ≡ some b
    → Listed b bs × (b.name ≡ n)
unfolding Dict.lookup
lookup-by_name bs n b h = elim (lookup-keyed bs [] n b h) [ inl l ↦ l | inr q ↦ cc ]

All-Listed :
    (bs : List BackendConfig) (b : BackendConfig)
    → All HasCredential bs
    → Listed b bs
    → HasCredential b
unfolding Listed
All-Listed [] b h l = absurd l
All-Listed (x ∷ bs) b h (inl e) = subst HasCredential e h.0
All-Listed (x ∷ bs) b h (inr l) = All-Listed bs b h.1 l

-- The backend that `select` gives an attempt stands in the file, has the name that the order has there,
-- and has a credential.
pub record Served (cfg : GatewayConfig) (attempt : ℤ) : Type 0 where
  pub serves : Serves cfg.policy cfg.backends_by_name attempt
  pub listed : Listed serves.selection.backend cfg.backends
  pub named : serves.selection.backend.name ≡ serves.name
  pub credential : HasCredential serves.selection.backend

-- What an accepted config gives: every attempt is served, and each backend has a credential.
pub record Fit (cfg : GatewayConfig) : Type 0 where
  pub served : (attempt : ℤ) → Served cfg attempt
  pub credentials : All HasCredential cfg.backends

module _ (env : Dict String) (float to_int : Value → Option ℤ) (show : Value → Text) where
  parse_backend-HasCredential :
      (raw : Value) (b : BackendConfig)
      → parse_backend env float to_int show raw ≡ some b
      → HasCredential b
  unfolding parse_backend HasCredential
  parse_backend-HasCredential (mapping raw) b h =
      let (name, e1, h1) = bind-some (non_empty (get "name" raw)) _ b h in
      let (base_url, e2, h2) = bind-some (non_empty (get "base_url" raw)) _ b h1 in
      let (model, e3, h3) = bind-some (non_empty (get "model" raw)) _ b h2 in
      let (timeout, e4, h4) =
        bind-some (float (value_or (int (pos 600)) (get "request_timeout" raw))) _ b h3 in
      let (auth, e5, h5) =
        bind-some (auth_for raw (lower (text_or show (codes "api_key") (get "auth" raw)))) _ b h4 in
      let (profile, e6, h6) =
        bind-some (profile_of (lower (text_or show (codes "chat") (get "param_profile" raw)))) _ b
          h5 in
      let (effort, e7, h7) =
        bind-some (effort_for profile (lower (text_or show [] (get "reasoning_effort" raw)))) _ b
          h6 in
      let (key, e8, h8) = bind-some (credential env raw auth) _ b h7 in
      let (pricing, e9, h9) = bind-some (parse_pricing float (get "pricing" raw)) _ b h8 in
      subst HasCredential (some-eq _ b h9) (credential-HasCredential env raw auth key e8)
  parse_backend-HasCredential _ b h = cc

  parse_backends-HasCredential :
      (raw : Values) (bs : List BackendConfig)
      → parse_backends env float to_int show raw ≡ some bs
      → All HasCredential bs
  parse_backends-HasCredential nil [] h = tt
  parse_backends-HasCredential nil (b ∷ bs) h = cc
  parse_backends-HasCredential (cons v vs) bs h =
      let (b, e1, h1) = bind-some (parse_backend env float to_int show v) _ bs h in
      let (rest, e2, h2) = bind-some (parse_backends env float to_int show vs) _ bs h1 in
      subst (All HasCredential) (some-eq (b ∷ rest) bs h2)
        (parse_backend-HasCredential v b e1, parse_backends-HasCredential vs rest e2)

  -- If a config file is accepted, every attempt number is served by a backend that the file lists, under
  -- the name that the order of the policy has there, and each backend of the file, so that one too, has a
  -- credential: a static key that is not empty, or none exactly if tokens are minted.
  pub load_config-Fit :
      (raw : Value) (cfg : GatewayConfig)
      → load_config env float to_int show raw ≡ some cfg
      → Fit cfg
  unfolding load_config
  load_config-Fit (mapping fs) cfg h =
      let (vs, e1, h1) = bind-some (list_of (get "backends" fs)) _ cfg h in
      let (bs, e2, h2) = bind-some (parse_backends env float to_int show vs) _ cfg h1 in
      elim (Bool-cases (has_twice (names bs))) [
        | inl u ↦ let never : none ≡ some cfg = rw u at h2 in cc
        | inr u ↦
            let rest = rw u at h2 in
            let (policy, e3, h3) =
              bind-some (parse_policy (value_or null (get "inference_policy" fs)) (names bs)) _ cfg
                rest in
            let (cache, e4, h4) =
              bind-some (parse_cache env float to_int show (get "cache" fs)) _ cfg h3 in
            subst Fit (some-eq _ cfg h4) (record {
              served = λ attempt.
                  let serves =
                    every_attempt_is_served (value_or null (get "inference_policy" fs)) (by_name bs)
                      policy attempt
                      (subst
                        (λ ns.
                          parse_policy (value_or null (get "inference_policy" fs)) ns ≡ some policy)
                        (sym (keys-by_name bs u)) e3) in
                  let (listed, named) = lookup-by_name bs serves.name _ serves.stored in
                  record {
                    serves = serves;
                    listed = listed;
                    named = named;
                    credential = All-Listed bs _ (parse_backends-HasCredential vs bs e2) listed;
                  };
              credentials = parse_backends-HasCredential vs bs e2;
            })
      ]
  load_config-Fit _ cfg h = cc
