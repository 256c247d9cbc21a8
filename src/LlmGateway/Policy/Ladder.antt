-- ===== src/LlmGateway/Policy/Ladder.antt =====
-- That a config that llm_gateway/config.py accepts serves every attempt by llm_gateway/policy.py.
use dev_harness.Base.{
  ℕ, zero, suc, ◌<◌, ◌≡◌, refl, subst, inl, inr, true, false, Option, none, some, List, [], ◌∷◌,
  String, ℤ, str_eq, arith, any, length, get_elem?, Bool-cases, Option-cases, if◌then◌else◌, ◌==◌,
}
use dev_harness.Base.Dict
use dev_harness.Base.Dict.{Dict, keys, lookup_of_key}
use dev_harness.LlmGateway.Config.{
  Value, Values, nil, cons, str, mapping, sequence, InferencePolicyConfig, check_entries,
  check_order, parse_policy, get,
}
use dev_harness.LlmGateway.Policy.{Selection, primary, fix_failure_advance, index_of, select}

-- The names are known, and none is among `seen` or stands twice.
abbrev pub Distinct : List String → List String → List String → Type 0
Distinct known seen [] = Unit
Distinct known seen (n ∷ ns) =
    (any (str_eq n) known ≡ true) × (any (str_eq n) seen ≡ false) × Distinct known (n ∷ seen) ns

-- The first entry of an accepted list.
check_entries_first :
    (known seen : List String) (n : String) (vs : Values) (ns : List String)
    → check_entries known seen (cons (str n) vs) ≡ some ns
    → (rest : List String) × (n ∷ rest ≡ ns)
      × (any (str_eq n) known ≡ true)
      × (any (str_eq n) seen ≡ false)
      × (check_entries known (n ∷ seen) vs ≡ some rest)
unfolding check_entries
check_entries_first known seen n vs ns h = elim (Bool-cases (any (str_eq n) known)) [
  | inr k ↦ absurd (let bad : none ≡ some ns = rw (k, check_entries) at h in cc)
  | inl k ↦ elim (Bool-cases (any (str_eq n) seen)) [
    | inl s ↦ absurd (let bad : none ≡ some ns = rw (k, s, check_entries) at h in cc)
    | inr s ↦ elim (Option-cases (check_entries known (n ∷ seen) vs)) [
      | inl r ↦ absurd (let bad : none ≡ some ns = rw (k, s, r, check_entries) at h in cc)
      | inr (rest, r) ↦
          let same : some (n ∷ rest) ≡ some ns = rw (k, s, r, check_entries) at h in
          (rest, cc, k, s, r)
    ]
  ]
]

check_entries-Distinct :
    (known seen : List String) (vs : Values) (ns : List String)
    → check_entries known seen vs ≡ some ns
    → Distinct known seen ns
unfolding check_entries
check_entries-Distinct known seen nil [] h = tt
check_entries-Distinct known seen nil (n ∷ ns) h = cc
check_entries-Distinct known seen (cons (str n) vs) ns h =
    let (rest, same, k, s, r) = check_entries_first known seen n vs ns h in
    subst (Distinct known seen) same (k, s, check_entries-Distinct known (n ∷ seen) vs rest r)
check_entries-Distinct known seen (cons _ vs) ns h = cc

check_entries-lt :
    (known seen : List String) (v : Value) (vs : Values) (ns : List String)
    → check_entries known seen (cons v vs) ≡ some ns
    → 0 < length ns
unfolding check_entries
check_entries-lt known seen (str n) vs ns h =
    let (rest, same, k, s, r) = check_entries_first known seen n vs ns h in
    subst (λ l. 0 < length l) same (omega arith)
check_entries-lt known seen _ vs ns h = cc

check_order_lem :
    (known : List String) (o : Option Value) (ns : List String)
    → check_order known o ≡ some ns
    → Distinct known [] ns × (0 < length ns)
unfolding check_order
check_order_lem known (some (sequence (cons v vs))) ns h =
    (check_entries-Distinct known [] (cons v vs) ns h, check_entries-lt known [] v vs ns h)
check_order_lem known _ ns h = cc

parse_policy_order :
    (raw : Value) (known : List String) (policy : InferencePolicyConfig)
    → parse_policy raw known ≡ some policy
    → Distinct known [] policy.order × (0 < length policy.order)
unfolding parse_policy
parse_policy_order (mapping fs) known policy h =
    elim (Option-cases (check_order known (get "order" fs))) [
      | inl e ↦ absurd (ground (arith, e))
      | inr (order, e) ↦
          let same : order ≡ policy.order = ground (arith, e) in
          subst (λ l. Distinct known [] l × (0 < length l)) same (check_order_lem known _ order e)
    ]
parse_policy_order _ known policy h = cc

Distinct-known :
    (known seen ns : List String) (i : ℕ) (n : String)
    → Distinct known seen ns
    → get_elem? ns i ≡ some n
    → any (str_eq n) known ≡ true
Distinct-known known seen [] i n d h = cc
Distinct-known known seen (m ∷ ns) zero n d h =
    let same : m ≡ n = cc in subst (λ x. any (str_eq x) known ≡ true) same d.0
Distinct-known known seen (m ∷ ns) (suc i) n d h = Distinct-known known (m ∷ seen) ns i n d.2 h

get_elem_in : (ns : List String) (i : ℕ) → i < length ns → (n : String) × (get_elem? ns i ≡ some n)
get_elem_in [] i h = absurd (omega arith)
get_elem_in (n ∷ ns) zero h = (n, refl)
get_elem_in (n ∷ ns) (suc i) h = get_elem_in ns i (omega arith)

index_of-lt :
    (policy : InferencePolicyConfig) (attempt : ℤ)
    → 0 < length policy.order
    → index_of policy attempt < length policy.order
index_of-lt policy attempt h = ground arith

-- What serves an attempt: the backend of the name at the clamped index of the order.
pub record Serves {B : Type 0} (policy : InferencePolicyConfig) (backends : Dict B) (attempt : ℤ)
    : Type 0 where
  pub name : String
  pub selection : Selection B
  pub in_range : index_of policy attempt < length policy.order
  pub at : get_elem? policy.order (index_of policy attempt) ≡ some name
  pub stored : Dict.lookup name backends ≡ some selection.backend
  pub selected : select policy backends attempt ≡ some selection

-- A policy that the config loader accepts against the names of the backends serves every attempt,
-- negative or beyond the last backend: `select` raises nothing, and returns the backend that the order
-- names at the attempt's number, clamped to the order, or at 0 if failures do not advance it.
pub every_attempt_is_served :
    {B : Type 0} (raw : Value) (backends : Dict B) (policy : InferencePolicyConfig) (attempt : ℤ)
    → parse_policy raw (keys backends) ≡ some policy
    → Serves policy backends attempt
unfolding select
every_attempt_is_served raw backends policy attempt h =
    let (distinct, some_name) = parse_policy_order raw (keys backends) policy h in
    let lt = index_of-lt policy attempt some_name in
    let (n, at) = get_elem_in policy.order (index_of policy attempt) lt in
    let known =
      Distinct-known (keys backends) [] policy.order (index_of policy attempt) n distinct at in
    let (b, stored) = lookup_of_key n backends known in
    record {
      name = n;
      selection = record {
        backend = b;
        reason = if index_of policy attempt == 0 then primary else fix_failure_advance;
      };
      in_range = lt;
      at = at;
      stored = stored;
      selected = rw (at, stored, select);
    }
