-- ===== src/LlmGateway/Forward/Tries.antt =====
-- How the tries of a request end.
use dev_harness.Base.{
  ℕ, zero, suc, ◌+◌, ◌<◌, ◌≤◌, ◌≡◌, ◌≢◌, ◌⊎◌, ◌==◌, refl, sym, ap, subst, inl, inr, true, false,
  if◌then◌else◌, Option, none, some, some-eq, List, [], ◌∷◌, length, take, ltb, ltb→lt, arith,
  Bool-cases, Option-cases,
}
use dev_harness.Base.Dict.{Dict}
use dev_harness.Base.Text.{Text}
use dev_harness.Base.Json.{Json}
use dev_harness.LlmGateway.Config.Backends.{BackendConfig, Auth, api_key_auth, entra, gcp}
use dev_harness.LlmGateway.Forward.{
  Post, transport_error, other_error, response, Minted, token, refused, Outcome, ok, fail,
  Forwarded, delays, bearer_for, with_bearer, url_of, sent_body, settled, exhausted, safe_json,
  is_transient, tries, forward,
}

-- An outcome is a success exactly if its status is below 400.
unfoldable pub RightKind : Outcome → Type 0
RightKind (ok status headers body) = status < 400
RightKind (fail status headers bytes e) = 400 ≤ status

-- The statuses that are worth another try.
pub data Busy : ℕ → Type 0 where
  too_many_requests : Busy 429
  internal_error : Busy 500
  bad_gateway : Busy 502
  unavailable : Busy 503
  gateway_timeout : Busy 504

is_transient-Busy : (status : ℕ) → is_transient status ≡ true → Busy status
is_transient-Busy status h = elim (dec_status 429 status) [
  | inl e ↦ subst Busy e too_many_requests
  | inr n1 ↦ elim (dec_status 500 status) [
    | inl e ↦ subst Busy e internal_error
    | inr n2 ↦ elim (dec_status 502 status) [
      | inl e ↦ subst Busy e bad_gateway
      | inr n3 ↦ elim (dec_status 503 status) [
        | inl e ↦ subst Busy e unavailable
        | inr n4 ↦ elim (dec_status 504 status) [
          | inl e ↦ subst Busy e gateway_timeout
          | inr n5 ↦ absurd (ground (arith, h, n1, n2, n3, n4, n5))
        ]
      ]
    ]
  ]
]
  where
    dec_status : (n m : ℕ) → (n ≡ m) ⊎ (n ≢ m)
    dec_status n m = elim (Bool-cases (n == m)) [
      | inl e ↦ inl (ground (arith, e))
      | inr e ↦ inr (λ q. ground (arith, e, q))
    ]

not_Busy : (status : ℕ) → is_transient status ≡ false → ¬ Busy status
not_Busy _ h too_many_requests = cc
not_Busy _ h internal_error = cc
not_Busy _ h bad_gateway = cc
not_Busy _ h unavailable = cc
not_Busy _ h gateway_timeout = cc

or_502-Busy : (status : ℕ) → Busy status → (if status == 0 then 502 else status) ≡ status
or_502-Busy _ too_many_requests = refl
or_502-Busy _ internal_error = refl
or_502-Busy _ bad_gateway = refl
or_502-Busy _ unavailable = refl
or_502-Busy _ gateway_timeout = refl

module _ (loads : Text → Option Json) (decode : Text → Text) (upstream : ℕ → Text) where
  -- The try that settles, after tries that all were transient, or that none does.
  pub data Ends (posts : ℕ → Post) (i : ℕ) (ds : List ℕ) : Forwarded → Type 0 where
    at_try :
        (n : ℕ) (o : Outcome)
        → n ≤ length ds
        → ((j : ℕ) → j < n → settled loads decode upstream (posts (i + j)) ≡ none)
        → settled loads decode upstream (posts (i + n)) ≡ some o
        → Ends posts i ds (record { outcome = o; slept = take n ds })
    gives_up :
        ((j : ℕ) → j < suc (length ds) → settled loads decode upstream (posts (i + j)) ≡ none)
        → Ends posts i ds (record {
          outcome = exhausted loads decode upstream (posts (i + length ds));
          slept = ds;
        })

  shift : (posts : ℕ → Post) (i j : ℕ) → posts (suc i + j) ≡ posts (i + suc j)
  shift posts i j = ap posts (omega arith)

  here : (posts : ℕ → Post) (i : ℕ) → posts (i + 0) ≡ posts i
  here posts i = ap posts (omega arith)

  all_before :
      (posts : ℕ → Post) (i n : ℕ)
      → settled loads decode upstream (posts i) ≡ none
      → ((j : ℕ) → j < n → settled loads decode upstream (posts (suc i + j)) ≡ none)
      → (j : ℕ) → j < suc n
      → settled loads decode upstream (posts (i + j)) ≡ none
  all_before posts i n e before zero h =
      subst (λ p. settled loads decode upstream p ≡ none) (sym (here posts i)) e
  all_before posts i n e before (suc j) h =
      subst (λ p. settled loads decode upstream p ≡ none) (shift posts i j)
        (before j (omega (arith, h)))

  -- A transient try before the end of the others.
  later :
      (posts : ℕ → Post) (i d : ℕ) (ds : List ℕ) (f : Forwarded)
      → settled loads decode upstream (posts i) ≡ none
      → Ends posts (suc i) ds f
      → Ends posts i (d ∷ ds) (record { outcome = f.outcome; slept = d ∷ f.slept })
  later posts i d ds f e (at_try n o bound before at) =
      at_try (suc n) o (omega arith) (all_before posts i n e before)
        (subst (λ p. settled loads decode upstream p ≡ some o) (shift posts i n) at)
  later posts i d ds f e (gives_up all) =
      subst
        (λ p.
          Ends posts i (d ∷ ds)
            (record { outcome = exhausted loads decode upstream p; slept = d ∷ ds }))
        (sym (shift posts i (length ds))) (gives_up (all_before posts i (suc (length ds)) e all))

  first_try :
      (posts : ℕ → Post) (i : ℕ) (ds : List ℕ) (o : Outcome)
      → settled loads decode upstream (posts i) ≡ some o
      → Ends posts i ds (record { outcome = o; slept = [] })
  first_try posts i ds o e =
      at_try 0 o (omega arith) (λ j h. absurd (omega (arith, h)))
        (subst (λ p. settled loads decode upstream p ≡ some o) (sym (here posts i)) e)

  tries-Ends :
      (posts : ℕ → Post) (i : ℕ) (ds : List ℕ)
      → Ends posts i ds (tries loads decode upstream posts i ds)
  unfolding tries
  tries-Ends posts i [] = elim (Option-cases (settled loads decode upstream (posts i))) [
    | inr (o, e) ↦ rw e (first_try posts i [] o e)
    | inl e ↦ rw e (
        subst
          (λ p.
            Ends posts i [] (record { outcome = exhausted loads decode upstream p; slept = [] }))
          (here posts i) (gives_up (all_before posts i 0 e (λ j h. absurd (omega (arith, h))))))
  ]
  tries-Ends posts i (d ∷ ds) = elim (Option-cases (settled loads decode upstream (posts i))) [
    | inr (o, e) ↦ rw e (first_try posts i (d ∷ ds) o e)
    | inl e ↦ rw e (
        later posts i d ds (tries loads decode upstream posts (suc i) ds) e
          (tries-Ends posts (suc i) ds))
  ]

  -- An answer that is worth another try.
  pub data Transient : Post → Type 0 where
    lost : (e : Text) → Transient (transport_error e)
    busy :
        (status : ℕ) (headers : Dict Text) (bytes : Text)
        → Busy status
        → Transient (response status headers bytes)

  -- An answer that ends the request, and what it is then.
  pub data Settles : Post → Outcome → Type 0 where
    broken : (e : Text) → Settles (other_error e) (fail 502 [] [] e)
    answered :
        (status : ℕ) (headers : Dict Text) (bytes : Text)
        → status < 400
        → Settles
            (response status headers bytes)
            (ok status headers (safe_json loads decode upstream bytes))
    rejected :
        (status : ℕ) (headers : Dict Text) (bytes : Text)
        → 400 ≤ status
        → ¬ Busy status
        → Settles (response status headers bytes) (fail status headers bytes (upstream status))

  -- What a request is after its last answer was transient.
  pub data GivenUp : Post → Outcome → Type 0 where
    lost_last : (e : Text) → GivenUp (transport_error e) (fail 502 [] [] e)
    busy_last :
        (status : ℕ) (headers : Dict Text) (bytes : Text)
        → Busy status
        → GivenUp (response status headers bytes) (fail status headers bytes (upstream status))

  -- Three tries at most, the second one second after the first and the third two seconds after that.
  pub data Tried (posts : ℕ → Post) : Forwarded → Type 0 where
    settles_at :
        (n : ℕ) (o : Outcome)
        → n < 3
        → ((j : ℕ) → j < n → Transient (posts j))
        → Settles (posts n) o
        → Tried posts (record { outcome = o; slept = take n (1 ∷ 2 ∷ []) })
    all_transient :
        (o : Outcome)
        → ((j : ℕ) → j < 3 → Transient (posts j))
        → GivenUp (posts 2) o
        → Tried posts (record { outcome = o; slept = 1 ∷ 2 ∷ [] })

  settled-Settles :
      (p : Post) (o : Outcome) → settled loads decode upstream p ≡ some o → Settles p o
  settled-Settles (transport_error e) o h = cc
  settled-Settles (other_error e) o h =
      subst (Settles (other_error e)) (some-eq (fail 502 [] [] e) o h) (broken e)
  settled-Settles (response status headers bytes) o h = elim (Bool-cases (ltb status 400)) [
    | inl below ↦
        let same : some (ok status headers (safe_json loads decode upstream bytes)) ≡ some o =
          rw below at h in
        subst (Settles (response status headers bytes)) (some-eq _ o same)
          (answered status headers bytes (ltb→lt status 400 below))
    | inr above ↦ elim (Bool-cases (is_transient status)) [
      | inl again ↦ let never : none ≡ some o = rw (above, again) at h in cc
      | inr final ↦
          let same : some (fail status headers bytes (upstream status)) ≡ some o =
            rw (above, final) at h in
          subst (Settles (response status headers bytes)) (some-eq _ o same)
            (rejected status headers bytes (ground (arith, above)) (not_Busy status final))
    ]
  ]

  transient_status :
      (status : ℕ) (headers : Dict Text) (bytes : Text)
      → settled loads decode upstream (response status headers bytes) ≡ none
      → Busy status
  transient_status status headers bytes h = elim (Bool-cases (ltb status 400)) [
    | inl below ↦
        let never : some (ok status headers (safe_json loads decode upstream bytes)) ≡ none =
          rw below at h in
        cc
    | inr above ↦ elim (Bool-cases (is_transient status)) [
      | inl again ↦ is_transient-Busy status again
      | inr final ↦
          let never : some (fail status headers bytes (upstream status)) ≡ none =
            rw (above, final) at h in
          cc
    ]
  ]

  settled-Transient : (p : Post) → settled loads decode upstream p ≡ none → Transient p
  settled-Transient (transport_error e) h = lost e
  settled-Transient (other_error e) h = cc
  settled-Transient (response status headers bytes) h =
      busy status headers bytes (transient_status status headers bytes h)

  exhausted-GivenUp :
      (p : Post)
      → settled loads decode upstream p ≡ none
      → GivenUp p (exhausted loads decode upstream p)
  exhausted-GivenUp (transport_error e) h = lost_last e
  exhausted-GivenUp (other_error e) h = cc
  exhausted-GivenUp (response status headers bytes) h =
      let is_busy = transient_status status headers bytes h in
      subst (λ n. GivenUp (response status headers bytes) (fail n headers bytes (upstream status)))
        (sym (or_502-Busy status is_busy)) (busy_last status headers bytes is_busy)

  from_zero :
      (posts : ℕ → Post) (j : ℕ) (o : Option Outcome)
      → settled loads decode upstream (posts (0 + j)) ≡ o
      → settled loads decode upstream (posts j) ≡ o
  from_zero posts j o h =
      let same : 0 + j ≡ j = omega arith in
      subst (λ i. settled loads decode upstream (posts i) ≡ o) same h

  Ends-Tried : (posts : ℕ → Post) (f : Forwarded) → Ends posts 0 delays f → Tried posts f
  Ends-Tried posts f (at_try n o bound before at) =
      settles_at n o (omega (arith, bound))
        (λ j h. settled-Transient (posts j) (from_zero posts j none (before j h)))
        (settled-Settles (posts n) o (from_zero posts n (some o) at))
  Ends-Tried posts f (gives_up all) =
      all_transient _
        (λ j h. settled-Transient (posts j) (from_zero posts j none (all j (omega (arith, h)))))
        (exhausted-GivenUp (posts 2) (all 2 (omega arith)))

  -- The static key of the backend, or what its provider of tokens returns.
  pub data Bearer (mint : Auth → Minted) (backend : BackendConfig) : Minted → Type 0 where
    static : backend.auth ≡ api_key_auth → Bearer mint backend (token backend.api_key)
    minted :
        (auth : Auth) → auth ≢ api_key_auth → backend.auth ≡ auth → Bearer mint backend (mint auth)

  bearer_for-Bearer :
      (mint : Auth → Minted) (backend : BackendConfig)
      → Bearer mint backend (bearer_for mint backend)
  bearer_for-Bearer mint backend = by_auth backend.auth refl
    where
      by_auth :
          (auth : Auth)
          → backend.auth ≡ auth
          → Bearer mint backend (elim auth [
            | api_key_auth ↦ token backend.api_key
            | entra ↦ mint entra
            | gcp ↦ mint gcp
          ])
      by_auth api_key_auth e = static e
      by_auth entra e = minted entra (λ q. cc) e
      by_auth gcp e = minted gcp (λ q. cc) e

  -- A backend whose credential is refused is never called.
  pub data Runs (mint : Auth → Minted) (backend : BackendConfig) (posts : Text → ℕ → Post)
      : Forwarded → Type 0 where
    uncalled :
        (e : Text)
        → Bearer mint backend (refused e)
        → Runs mint backend posts (record { outcome = fail 502 [] [] e; slept = [] })
    called :
        (bearer : Text) (f : Forwarded)
        → Bearer mint backend (token bearer)
        → Tried (posts bearer) f
        → Runs mint backend posts f

  with_bearer-Runs :
      (mint : Auth → Minted) (backend : BackendConfig) (posts : Text → ℕ → Post) (m : Minted)
      → Bearer mint backend m
      → Runs mint backend posts
          (with_bearer m (λ bearer. tries loads decode upstream (posts bearer) 0 delays))
  with_bearer-Runs mint backend posts (refused e) b = uncalled e b
  with_bearer-Runs mint backend posts (token bearer) b =
      called bearer _ b (Ends-Tried (posts bearer) _ (tries-Ends (posts bearer) 0 delays))

  -- A forwarded request is tried at most three times, with pauses of one and two seconds: the first try
  -- that is no transport error and not answered by 429, 500, 502, 503 or 504 ends it, as a success
  -- below 400 and else as a failure; if all three are transient, it fails with the status and the body
  -- of the third, or with 502 if that was a transport error. The bearer is the static key of the
  -- backend, or the token that is minted for its kind of authentication, and a backend whose credential
  -- is refused is never called.
  pub forward-Runs :
      (mint : Auth → Minted) (post : Text → Text → Dict Json → ℕ → Post) (backend : BackendConfig)
      (body : Dict Json)
      → Runs mint backend
          (λ bearer. post (url_of backend) bearer (sent_body backend body))
          (forward loads decode upstream mint post backend body)
  unfolding forward
  forward-Runs mint post backend body =
      with_bearer-Runs mint backend
        (λ bearer. post (url_of backend) bearer (sent_body backend body)) (bearer_for mint backend)
        (bearer_for-Bearer mint backend)

  settled-RightKind :
      (p : Post) (o : Outcome) → settled loads decode upstream p ≡ some o → RightKind o
  settled-RightKind (transport_error e) o h = cc
  settled-RightKind (other_error e) o h =
      subst RightKind (some-eq (fail 502 [] [] e) o h) (unfold RightKind in omega arith)
  settled-RightKind (response status headers bytes) o h = elim (Bool-cases (ltb status 400)) [
    | inl below ↦
        let same : some (ok status headers (safe_json loads decode upstream bytes)) ≡ some o =
          rw below at h in
        subst RightKind (some-eq _ o same) (unfold RightKind in ltb→lt status 400 below)
    | inr above ↦ elim (Bool-cases (is_transient status)) [
      | inl again ↦ let never : none ≡ some o = rw (above, again) at h in cc
      | inr done ↦
          let same : some (fail status headers bytes (upstream status)) ≡ some o =
            rw (above, done) at h in
          subst RightKind (some-eq _ o same) (unfold RightKind in ground (arith, above))
    ]
  ]

  exhausted-RightKind :
      (p : Post)
      → settled loads decode upstream p ≡ none
      → RightKind (exhausted loads decode upstream p)
  unfolding RightKind
  exhausted-RightKind (transport_error e) h = omega arith
  exhausted-RightKind (other_error e) h = cc
  exhausted-RightKind (response status headers bytes) h = elim (Bool-cases (ltb status 400)) [
    | inl below ↦
        let never : some (ok status headers (safe_json loads decode upstream bytes)) ≡ none =
          rw below at h in
        cc
    | inr above ↦ ground (arith, above)
  ]

  Ends-RightKind :
      (posts : ℕ → Post) (i : ℕ) (ds : List ℕ) (f : Forwarded)
      → Ends posts i ds f
      → RightKind f.outcome
  Ends-RightKind posts i ds f (at_try n o bound before at) = settled-RightKind (posts (i + n)) o at
  Ends-RightKind posts i ds f (gives_up all) =
      exhausted-RightKind (posts (i + length ds)) (all (length ds) (omega arith))

  with_bearer-RightKind :
      (post : Text → Dict Json → ℕ → Post) (body : Dict Json) (m : Minted)
      → RightKind
          (with_bearer m
            (λ bearer. tries loads decode upstream (post bearer body) 0 delays)).outcome
  with_bearer-RightKind post body (refused e) = unfold RightKind in omega arith
  with_bearer-RightKind post body (token bearer) =
      Ends-RightKind (post bearer body) 0 delays
        (tries loads decode upstream (post bearer body) 0 delays)
        (tries-Ends (post bearer body) 0 delays)

  pub forward-RightKind :
      (mint : Auth → Minted) (post : Text → Text → Dict Json → ℕ → Post) (backend : BackendConfig)
      (body : Dict Json)
      → RightKind (forward loads decode upstream mint post backend body).outcome
  unfolding forward
  forward-RightKind mint post backend body =
      with_bearer-RightKind (post (url_of backend)) (sent_body backend body)
        (bearer_for mint backend)
