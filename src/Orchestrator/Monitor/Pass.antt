-- ===== src/Orchestrator/Monitor/Pass.antt =====
-- What one pass of the health monitor (orchestrator/monitor.py) does to each worker.
use dev_harness.Base.{
  ℕ, ◌≡◌, ◌≢◌, refl, sym, ◌∙◌, ap, subst, inl, inr, Option, none, some, [], ◌∷◌, String, str_eq,
  eq_iff, arith, if◌then◌else◌, Bool-cases, Option-cases,
}
use dev_harness.Base.Dict
use dev_harness.Base.Dict.{
  Dict, Unique, only, lookup-insert, lookup-keep, Unique-keep, Unique-insert, lookup-nil,
  lookup-cons, ne_of_lookup,
}
use dev_harness.Orchestrator.Registry.{
  WorkerEntry, Registry, is_active, get, all_active, is_stale, sweep_stale,
}
use dev_harness.Orchestrator.Registry.Sweep.{fresh, sweep_stale-eq-keep, active_not_stale}
use dev_harness.Orchestrator.Monitor.{Probe, Answers, check_each, check_all}
use dev_harness.Orchestrator.Monitor.Fate.{
  fate, meet_fate, put_fate, check_worker-put_fate, lookup-put_fate, Unique-put_fate,
}

-- What the loop leaves for a key, from the entry of the snapshot and the entry of the registry.
abbrev visited : Answers → String → Option WorkerEntry → Option WorkerEntry → Option WorkerEntry
visited a bug_id none old = old
visited a bug_id (some e) old = elim (a.probe bug_id) [
  | none ↦ old
  | some p ↦ some (meet_fate p bug_id e (fate p a.now e))
]

abbrev Agrees : Dict WorkerEntry → Registry → Type 0
Agrees snapshot r = (j : String) (e : WorkerEntry) → get j snapshot ≡ some e → get j r ≡ some e

Agrees-tail :
    (k : String) (e : WorkerEntry) (rest : Dict WorkerEntry) (r r1 : Registry) (new : WorkerEntry)
    → Unique ((k, e) ∷ rest)
    → Agrees ((k, e) ∷ rest) r
    → ((j : String) → get j r1 ≡ (if str_eq k j then some new else get j r))
    → Agrees rest r1
unfolding get
Agrees-tail k e rest r r1 new u agree set j e' h =
    let ne = ne_of_lookup k j e' rest u.0 h in
    ground (arith, set j, agree j e', lookup-cons j k e rest, ne)

visited-head :
    (a : Answers) (k : String) (e : WorkerEntry) (rest : Dict WorkerEntry) (p : Probe)
    (old : Option WorkerEntry)
    → Unique ((k, e) ∷ rest)
    → a.probe k ≡ some p
    → visited a k (get k rest) (some (meet_fate p k e (fate p a.now e)))
      ≡ visited a k (get k ((k, e) ∷ rest)) old
unfolding get
visited-head a k e rest p old u q = rw (u.0, lookup-cons k k e rest, (eq_iff k k).1 refl) (rw q)

visited-cons :
    (a : Answers) (k : String) (e : WorkerEntry) (rest : Dict WorkerEntry) (p : Probe)
    (old : Option WorkerEntry) (j : String)
    → Unique ((k, e) ∷ rest)
    → a.probe k ≡ some p
    → visited a j (get j rest) (if str_eq k j then some (meet_fate p k e (fate p a.now e)) else old)
      ≡ visited a j (get j ((k, e) ∷ rest)) old
unfolding get
visited-cons a k e rest p old j u q = elim (Bool-cases (str_eq k j)) [
  | inr ne ↦ rw (lookup-cons j k e rest, ne)
  | inl same ↦ rw same (
      subst
        (λ i.
          visited a i (get i rest) (some (meet_fate p k e (fate p a.now e)))
          ≡ visited a i (get i ((k, e) ∷ rest)) old)
        ((eq_iff k j).0 same) (visited-head a k e rest p old u q))
]

-- The loop over a snapshot that agrees with the registry visits each worker once and raises nothing.
check_each_lem :
    (a : Answers) (snapshot : Dict WorkerEntry) (r : Registry)
    → Unique snapshot
    → Agrees snapshot r
    → ((j : String) → a.probe j ≢ none)
    → (r' : Registry) × (check_each a snapshot r ≡ some r')
      × (Unique r → Unique r')
      × ((j : String) → get j r' ≡ visited a j (get j snapshot) (get j r))
unfolding check_each
check_each_lem a [] r u agree answers = (r, refl, λ v. v, λ j. unfold get in rw (lookup-nil j))
check_each_lem a ((k, e) ∷ rest) r u agree answers = elim (Option-cases (a.probe k)) [
  | inl q ↦ absurd (answers k q)
  | inr (p, q) ↦
      let here : get k r ≡ some e =
        agree k e (unfold get in ground (arith, lookup-cons k k e rest, eq_iff k k)) in
      let f = fate p a.now e in
      let r1 = put_fate p k e r f in
      let set = lookup-put_fate p k e r here f in
      let (r', runs, unique, after) =
        check_each_lem a rest r1 u.1 (Agrees-tail k e rest r r1 (meet_fate p k e f) u agree set)
          answers in
      (
        r',
        rw (q, check_each) (rw (check_worker-put_fate p k e r here a.now, check_each) runs),
        λ v. unique (Unique-put_fate p k e r f v),
        λ j.
            after j
            ∙ ap (visited a j (get j rest)) (set j)
            ∙ visited-cons a k e rest p (get j r) j u q,
      )
]

-- What a pass leaves for a bug, from what the registry held before it.
abbrev pub after_pass : ℕ → Answers → String → Option WorkerEntry → Option WorkerEntry
after_pass grace a bug_id none = none
after_pass grace a bug_id (some e) =
    if is_active e
    then visited a bug_id (some e) (some e)
    else if is_stale a.sweep_at grace e
    then none
    else some e

after_swept :
    (grace : ℕ) (a : Answers) (bug_id : String) (o : Option WorkerEntry)
    → visited a bug_id
        (only is_active (only (fresh a.sweep_at grace) o))
        (only (fresh a.sweep_at grace) o)
      ≡ after_pass grace a bug_id o
after_swept grace a bug_id none = refl
after_swept grace a bug_id (some e) = ground (arith, active_not_stale a.sweep_at grace e)

-- If every worker's probe answers, a pass over a registry with unique keys raises nothing, and it
-- keeps the keys unique, it leaves every active worker with the fate that its own probe gives, whatever becomes of the others,
-- drops the terminal entries that are stale, and leaves the other terminal entries alone.
pub check_all_pointwise :
    (grace : ℕ) (a : Answers) (r : Registry)
    → Unique r
    → ((bug_id : String) → a.probe bug_id ≢ none)
    → (r' : Registry) × (check_all grace a r ≡ some r')
      × Unique r'
      × ((bug_id : String) → get bug_id r' ≡ after_pass grace a bug_id (get bug_id r))
unfolding check_all all_active get
check_all_pointwise grace a r u answers =
    let swept = (sweep_stale a.sweep_at grace r).0 in
    let is_kept : swept ≡ Dict.keep (fresh a.sweep_at grace) r =
      sweep_stale-eq-keep a.sweep_at grace r in
    let u' : Unique swept = subst Unique (sym is_kept) (Unique-keep (fresh a.sweep_at grace) r u) in
    let found =
      λ (j : String). ap (Dict.lookup j) is_kept ∙ lookup-keep (fresh a.sweep_at grace) j r u in
    let active = λ (j : String). lookup-keep is_active j swept u' in
    let (r', runs, unique, after) =
      check_each_lem a (Dict.keep is_active swept) swept (Unique-keep is_active swept u')
        (λ j e h. ground (arith, active j)) answers in
    (
      r',
      runs,
      unique u',
      λ j.
          after j
          ∙ ap (λ o. visited a j o (get j swept)) (active j)
          ∙ ap (λ o. visited a j (only is_active o) o) (found j)
          ∙ after_swept grace a j (get j r),
    )
