-- ===== src/Worker/TransientRetry/Attempts.antt =====
-- What the retry loop of bf_worker/services/transient_retry.py does on every sequence of outcomes.
use dev_harness.Base.{
  ℕ, suc, ◌+◌, ◌≤◌, ◌<◌, ◌≡◌, refl, subst, ◌⊎◌, inl, inr, true, false, Option, none, some, List, [],
  ◌∷◌, String, arith, All, length, leb, leb→le, Bool-cases, Option-cases,
}
use dev_harness.Worker.TransientRetry.{
  Failure, http, Attempt, value, failure, Ending, returned, raised, parse_retry_after,
  classify_transient, attempts_from, with_transient_retry, retry_after_cap_s,
}

-- A failure that is worth another attempt.
abbrev pub Passing : {A : Type 0} → Attempt A → Type 0
Passing (value a) = (false ≡ true)
Passing (failure e) = ((classify_transient e).0 ≡ true)

Attempt-cases :
    {A : Type 0} (t : Attempt A) → ((a : A) × (t ≡ value a)) ⊎ ((e : Failure) × (t ≡ failure e))
Attempt-cases (value a) = inl (a, refl)
Attempt-cases (failure e) = inr (e, refl)

module _ {A : Type 0} (fn : ℕ → Attempt A) where
  -- The attempts from `i` to the one before `last` failed in a way that passes.
  abbrev pub AllPassing : ℕ → ℕ → Type 0
  AllPassing i last = (j : ℕ) → i ≤ j → j < last → Passing (fn j)

  -- The loop at `i`, with `left` delays to go, ended at the attempt `last`.
  abbrev pub EndedAt : ℕ → ℕ → ℕ → Ending A → Type 0
  EndedAt i left last (returned a retries) = (fn last ≡ value a) × (retries ≡ last)
  EndedAt i left last (raised e) =
      (fn last ≡ failure e) × (((classify_transient e).0 ≡ false) ⊎ (last ≡ i + left))

  pub record Attempted (i left : ℕ) (ending : Ending A) (sleeps : List ℕ) : Type 0 where
    pub last : ℕ
    pub started : i ≤ last
    pub bounded : last ≤ i + left
    pub passing : AllPassing i last
    pub slept : i + length sleeps ≡ last
    pub ended : EndedAt i left last ending

  none_before : (i : ℕ) → AllPassing i i
  none_before i j le lt = absurd (omega arith)

  extends_back : (i last : ℕ) → Passing (fn i) → AllPassing (suc i) last → AllPassing i last
  extends_back i last here later j le lt = elim (Bool-cases (leb j i)) [
    | inl e ↦
        let same : i ≡ j = omega (arith, leb→le j i e) in subst (λ m. Passing (fn m)) same here
    | inr e ↦ later j (ground arith) lt
  ]

  EndedAt-suc :
      (i left last : ℕ) (ending : Ending A)
      → EndedAt (suc i) left last ending
      → EndedAt i (suc left) last ending
  EndedAt-suc i left last (returned a retries) h = h
  EndedAt-suc i left last (raised e) (h, inl p) = (h, inl p)
  EndedAt-suc i left last (raised e) (h, inr p) = (h, inr (omega (arith, p)))

  Attempted-suc :
      (i left delay : ℕ) (ending : Ending A) (sleeps : List ℕ)
      → Passing (fn i)
      → Attempted (suc i) left ending sleeps
      → Attempted i (suc left) ending (delay ∷ sleeps)
  Attempted-suc i left delay ending sleeps here t = record {
    last = t.last;
    started = omega (arith, t.started);
    bounded = omega (arith, t.bounded);
    passing = extends_back i t.last here t.passing;
    slept = omega (arith, t.slept);
    ended = EndedAt-suc i left t.last ending t.ended;
  }

  ended_here :
      (i left : ℕ) (ending : Ending A) → EndedAt i left i ending → Attempted i left ending []
  ended_here i left ending h = record {
    last = i;
    started = omega arith;
    bounded = omega arith;
    passing = none_before i;
    slept = omega arith;
    ended = h;
  }

  attempts_from-Attempted :
      (i : ℕ) (delays : List ℕ)
      → Attempted i (length delays) (attempts_from fn i i delays).0 (attempts_from fn i i delays).1
  unfolding attempts_from
  attempts_from-Attempted i [] = elim (Attempt-cases (fn i)) [
    | inl (a, e) ↦ rw (e, attempts_from) (ended_here i 0 _ (e, refl))
    | inr (x, e) ↦ rw (e, attempts_from) (ended_here i 0 _ (e, inr (omega arith)))
  ]
  attempts_from-Attempted i (delay ∷ delays) = elim (Attempt-cases (fn i)) [
    | inl (a, e) ↦ rw (e, attempts_from) (ended_here i _ _ (e, refl))
    | inr (x, e) ↦ elim (Bool-cases (classify_transient x).0) [
      | inl t ↦
          rw (e, t, attempts_from)
            (Attempted-suc i (length delays) _ _ _ (rw (e, Passing) t)
              (attempts_from-Attempted (suc i) delays))
      | inr t ↦ rw (e, t, attempts_from) (ended_here i _ _ (e, inl t))
    ]
  ]

-- The loop makes at most one attempt more than there are delays, and sleeps once between two attempts.
-- It goes on exactly over failures that pass: it returns the first value, with the number of retries,
-- or raises the failure of the last attempt, which does not pass or used up the delays.
pub with_transient_retry_lem :
    {A : Type 0} (fn : ℕ → Attempt A) (delays : List ℕ)
    → Attempted fn 0
        (length delays)
        (with_transient_retry fn delays).0
        (with_transient_retry fn delays).1
unfolding with_transient_retry
with_transient_retry_lem fn delays = attempts_from-Attempted fn 0 delays

parse_retry_after-le :
    (header : Option String) (s : ℕ) → parse_retry_after header ≡ some s → s ≤ retry_after_cap_s
unfolding parse_retry_after
parse_retry_after-le none s h = cc
parse_retry_after-le (some text) s h = ground arith

suggested-le : (e : Failure) (s : ℕ) → (classify_transient e).1 ≡ some s → s ≤ retry_after_cap_s
unfolding classify_transient
suggested-le (http status header) s h = ground (arith, parse_retry_after-le header s)
suggested-le _ s h = cc

sleeps-le :
    {A : Type 0} (fn : ℕ → Attempt A) (i : ℕ) (delays : List ℕ)
    → All (λ s. s ≤ retry_after_cap_s) delays
    → All (λ s. s ≤ retry_after_cap_s) (attempts_from fn i i delays).1
unfolding attempts_from
sleeps-le fn i [] h = elim (Attempt-cases (fn i)) [
  | inl (a, e) ↦ rw (e, attempts_from) tt
  | inr (x, e) ↦ rw (e, attempts_from) tt
]
sleeps-le fn i (delay ∷ delays) h = elim (Attempt-cases (fn i)) [
  | inl (a, e) ↦ rw (e, attempts_from) tt
  | inr (x, e) ↦ elim (Bool-cases (classify_transient x).0) [
    | inr t ↦ rw (e, t, attempts_from) tt
    | inl t ↦
        let rest = sleeps-le fn (suc i) delays h.1 in
        elim (Option-cases (classify_transient x).1) [
          | inl q ↦ rw (e, t, q, attempts_from) (h.0, rest)
          | inr (s, q) ↦ rw (e, t, q, attempts_from) (suggested-le x s q, rest)
        ]
  ]
]

-- No sleep is longer than 30 seconds, whatever the servers suggest, if no delay is.
pub sleeps_capped :
    {A : Type 0} (fn : ℕ → Attempt A) (delays : List ℕ)
    → All (λ s. s ≤ retry_after_cap_s) delays
    → All (λ s. s ≤ retry_after_cap_s) (with_transient_retry fn delays).1
unfolding with_transient_retry
sleeps_capped fn delays h = sleeps-le fn 0 delays h
