-- ===== src/Orchestrator/Registry/Sweep.antt =====
-- What the registry of orchestrator/registry.py keeps and drops.
use dev_harness.Base.{
  ℕ, ◌+◌, ◌<◌, ◌≡◌, ◌⊎◌, ◌↔◌, refl, sym, ◌∙◌, ap, subst, inl, inr, Bool, true, false, not, Option,
  none, some, some-eq, [], ◌∷◌, String, arith, length, Bool-cases, Option-cases,
}
use dev_harness.Base.Dict
use dev_harness.Base.Dict.{
  Unique, only, lookup-insert, lookup-keep, Unique-keep, Unique-insert, All-keep,
}
use dev_harness.Orchestrator.Registry.{
  WorkerEntry, WorkerStatus, warmup, running, failed, done, Registry, is_terminal, is_active, get,
  is_stale, sweep_stale,
}

abbrev pub fresh : ℕ → ℕ → WorkerEntry → Bool
fresh now grace e = not (is_stale now grace e)

-- The loop over the keys is the filter of the entries that are not stale.
pub sweep_stale-eq-keep :
    (now grace : ℕ) (r : Registry) → (sweep_stale now grace r).0 ≡ Dict.keep (fresh now grace) r
unfolding sweep_stale Dict.keep
sweep_stale-eq-keep now grace [] = refl
sweep_stale-eq-keep now grace ((k, e) ∷ r) = ground (arith, sweep_stale-eq-keep now grace r)

counted :
    (now grace : ℕ) (r : Registry)
    → length (sweep_stale now grace r).0 + (sweep_stale now grace r).1 ≡ length r
unfolding sweep_stale
counted now grace [] = refl
counted now grace ((k, e) ∷ r) = ground (arith, counted now grace r)

-- A terminal entry whose stamp is older than the grace period.
pub record Stale (now grace : ℕ) (e : WorkerEntry) : Type 0 where
  pub terminal : (e.status ≡ done) ⊎ (e.status ≡ failed)
  pub stamp : ℕ
  pub stamped : e.done_at ≡ some stamp
  pub outlived : stamp + grace < now

Status-cases : (s : WorkerStatus) → ((s ≡ done) ⊎ (s ≡ failed)) ⊎ (is_terminal s ≡ false)
Status-cases warmup = inr refl
Status-cases running = inr refl
Status-cases failed = inl (inr refl)
Status-cases done = inl (inl refl)

Stale-is_stale : (now grace : ℕ) (e : WorkerEntry) → Stale now grace e → is_stale now grace e ≡ true
unfolding is_stale
Stale-is_stale now grace e s = ground (arith, s.terminal, s.stamped, s.outlived)

is_stale-Stale : (now grace : ℕ) (e : WorkerEntry) → is_stale now grace e ≡ true → Stale now grace e
unfolding is_stale
is_stale-Stale now grace e h = elim (Status-cases e.status) [
  | inr active ↦ absurd (let never : false ≡ true = rw active at h in cc)
  | inl terminal ↦ elim (Option-cases e.done_at) [
    | inl q ↦ absurd (ground (arith, h, q))
    | inr (t, q) ↦ record {
      terminal = terminal;
      stamp = t;
      stamped = q;
      outlived = ground (arith, h, q);
    }
  ]
]

only_iff :
    {V : Type 0} (p : V → Bool) (o : Option V) (v : V)
    → (only p o ≡ some v) ↔ ((o ≡ some v) × (p v ≡ true))
only_iff p none v = (λ h. cc, λ h. h.0)
only_iff p (some w) v = (
  λ h. elim (Bool-cases (p w)) [
    | inl e ↦
        let same : some w ≡ some v = rw e at h in
        (same, subst (λ x. p x ≡ true) (some-eq w v same) e)
    | inr e ↦ absurd (let never : none ≡ some v = rw e at h in cc)
  ],
  λ h. rw (subst (λ x. p x ≡ true) (sym (some-eq w v h.0)) h.1) h.0,
)

fresh_iff : (now grace : ℕ) (e : WorkerEntry) → (fresh now grace e ≡ true) ↔ (¬ Stale now grace e)
fresh_iff now grace e = (
  λ h s. ground (arith, h, Stale-is_stale now grace e s),
  λ h. elim (Bool-cases (is_stale now grace e)) [
    | inl q ↦ absurd (h (is_stale-Stale now grace e q))
    | inr q ↦ rw q refl
  ],
)

-- The number that `sweep_stale` returns is the number of entries that are gone, and a lookup after it
-- finds exactly the entries that it found before and that are not stale: done or failed, with a stamp
-- that is older than the grace period.
pub sweep_stale_exact :
    (now grace : ℕ) (r : Registry) (bug_id : String) (e : WorkerEntry)
    → Unique r
    → (length (sweep_stale now grace r).0 + (sweep_stale now grace r).1 ≡ length r)
      × ((get bug_id (sweep_stale now grace r).0 ≡ some e)
          ↔ ((get bug_id r ≡ some e) × (¬ Stale now grace e)))
unfolding get
sweep_stale_exact now grace r bug_id e u =
    let found : Dict.lookup bug_id (sweep_stale now grace r).0
        ≡ only (fresh now grace) (Dict.lookup bug_id r) =
      ap (Dict.lookup bug_id) (sweep_stale-eq-keep now grace r)
      ∙ lookup-keep (fresh now grace) bug_id r u in
    let kept = only_iff (fresh now grace) (Dict.lookup bug_id r) e in
    let young = fresh_iff now grace e in
    (
      counted now grace r,
      (
        λ h. let (here, is_young) = kept.0 (sym found ∙ h) in (here, young.0 is_young),
        λ h. found ∙ kept.1 (h.0, young.1 h.1),
      ),
    )

-- A worker that still warms up or runs is never swept.
pub active_not_stale :
    (now grace : ℕ) (e : WorkerEntry) → is_active e ≡ true → is_stale now grace e ≡ false
unfolding is_stale
active_not_stale now grace e h = ground arith
