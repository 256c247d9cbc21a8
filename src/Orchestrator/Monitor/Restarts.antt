-- ===== src/Orchestrator/Monitor/Restarts.antt =====
-- Restarts over many passes of the health monitor (orchestrator/monitor.py): an invariant of the
-- registry, and the end of a worker that keeps dying.
use dev_harness.Base.{
  ℕ, zero, suc, ◌+◌, ◌≤◌, ◌<◌, ◌≡◌, ◌≢◌, refl, sym, ◌∙◌, ap, inl, inr, true, false, Option, none,
  some, List, [], ◌∷◌, String, ℤ, is_zero, is_some, arith, All, length, Option-cases,
}
use dev_harness.Base.Dict.{Unique}
use dev_harness.Orchestrator.Registry.{
  WorkerEntry, Registry, failed, max_worker_restarts, is_terminal, is_active, get, with_status,
}
use dev_harness.Orchestrator.Monitor.{Probe, Answers, job_of, check_all, passes}
use dev_harness.Orchestrator.Spawner.{started_entry}
use dev_harness.Orchestrator.Monitor.Fate.{fate, meet_fate}
use dev_harness.Orchestrator.Monitor.Pass.{after_pass, check_all_pointwise}

-- At most three restarts, and a terminal time exactly for a terminal status.
pub record Healthy (e : WorkerEntry) : Type 0 where
  pub restarts : e.restart_count ≤ max_worker_restarts
  pub stamped : is_some e.done_at ≡ is_terminal e.status

abbrev pub AllHealthy : Registry → Type 0
AllHealthy r = (bug_id : String) (e : WorkerEntry) → get bug_id r ≡ some e → Healthy e

-- Every probe of a pass answers.
abbrev pub Answered : Answers → Type 0
Answered a = (bug_id : String) → a.probe bug_id ≢ none

meet_fate-Healthy :
    (p : Probe) (now : ℕ) (bug_id : String) (e : WorkerEntry)
    → is_active e ≡ true
    → Healthy e
    → Healthy (meet_fate p bug_id e (fate p now e))
unfolding with_status
meet_fate-Healthy p now bug_id e on h = ground arith

after_pass-Healthy :
    (grace : ℕ) (a : Answers) (bug_id : String) (o : Option WorkerEntry) (e' : WorkerEntry)
    → ((e : WorkerEntry) → o ≡ some e → Healthy e)
    → after_pass grace a bug_id o ≡ some e'
    → Healthy e'
after_pass-Healthy grace a bug_id none e' h q = cc
after_pass-Healthy grace a bug_id (some e) e' h q = elim (Option-cases (a.probe bug_id)) [
  | inl n ↦ ground (arith, h e refl)
  | inr (p, n) ↦ ground (arith, h e refl, meet_fate-Healthy p a.now bug_id e)
]

-- Whatever the workers do over any number of passes, no worker is restarted more than three times,
-- and an entry has a terminal time exactly if its status is terminal. The passes raise nothing.
pub passes_keep_healthy :
    (grace : ℕ) (answers : List Answers) (r : Registry)
    → All Answered answers
    → Unique r
    → AllHealthy r
    → (r' : Registry) × (passes grace answers r ≡ some r') × Unique r' × AllHealthy r'
unfolding passes
passes_keep_healthy grace [] r h u healthy = (r, refl, u, healthy)
passes_keep_healthy grace (a ∷ rest) r h u healthy =
    let (r1, runs, u1, after) = check_all_pointwise grace a r u h.0 in
    let healthy1 = λ (j : String) (e : WorkerEntry) (q : get j r1 ≡ some e).
      after_pass-Healthy grace a j (get j r) e (healthy j) (sym (after j) ∙ q) in
    let (r', runs', u', healthy') = passes_keep_healthy grace rest r1 h.1 u1 healthy1 in
    (r', rw (runs, passes) runs', u', healthy')

-- A probe that reports the death of the worker, and a new process for it.
pub record Dies (p : Probe) : Type 0 where
  pub exit_code : ℤ
  pub exited : p.returncode ≡ some exit_code
  pub failing : is_zero exit_code ≡ false
  pub incomplete : p.completed ≡ false
  pub process : ℕ
  pub restartable : p.started ≡ some process

-- Every pass sees the worker of `bug_id` dead.
abbrev pub Dying : String → Answers → Type 0
Dying bug_id a = (p : Probe) × (a.probe bug_id ≡ some p) × Dies p

-- The passes restart the worker of `bug_id`, each with the process that its probe started and one more
-- restart counted, up to a pass after three restarts, which fails it.
pub data RunsOut (grace : ℕ) (bug_id : String)
    : List Answers → Registry → WorkerEntry → Type 0 where
  fails :
      (a : Answers) (r r' : Registry) (e e' : WorkerEntry)
      → e.restart_count ≡ max_worker_restarts
      → check_all grace a r ≡ some r'
      → get bug_id r' ≡ some e'
      → e'.status ≡ failed
      → e'.restart_count ≡ max_worker_restarts
      → e'.process ≡ e.process
      → RunsOut grace bug_id (a ∷ []) r e
  restarts :
      (a : Answers) (rest : List Answers) (r r' : Registry) (e e' : WorkerEntry) (p : Probe)
      → check_all grace a r ≡ some r'
      → a.probe bug_id ≡ some p
      → get bug_id r' ≡ some e'
      → is_active e' ≡ true
      → e'.restart_count ≡ e.restart_count + 1
      → p.started ≡ some e'.process
      → RunsOut grace bug_id rest r' e'
      → RunsOut grace bug_id (a ∷ rest) r e

after_death :
    (grace : ℕ) (a : Answers) (bug_id : String) (e : WorkerEntry)
    → (d : Dying bug_id a) → is_active e ≡ true
    → e.restart_count < max_worker_restarts
    → (e' : WorkerEntry) × (after_pass grace a bug_id (some e) ≡ some e')
      × (is_active e' ≡ true)
      × (e'.restart_count ≡ e.restart_count + 1)
      × (d.0.started ≡ some e'.process)
after_death grace a bug_id e (p, asked, dies) on h = (
  started_entry (job_of bug_id e) dies.process p.stamp (e.restart_count + 1),
  ground (arith, asked, dies.exited, dies.failing, dies.incomplete, dies.restartable),
  refl,
  refl,
  dies.restartable,
)

after_last_death :
    (grace : ℕ) (a : Answers) (bug_id : String) (e : WorkerEntry)
    → Dying bug_id a
    → is_active e ≡ true
    → max_worker_restarts ≤ e.restart_count
    → (e' : WorkerEntry) × (after_pass grace a bug_id (some e) ≡ some e')
      × (e'.status ≡ failed)
      × (e'.restart_count ≡ e.restart_count)
      × (e'.process ≡ e.process)
unfolding with_status
after_last_death grace a bug_id e (p, asked, dies) on h = (
  with_status p.stamp failed e,
  ground (arith, asked, dies.exited, dies.failing, dies.incomplete),
  refl,
  refl,
  refl,
)

-- A worker that is found dead at every pass, and can be started again, is restarted at each with a new
-- process until it has been restarted three times, and at the next pass it is failed: `suc k` passes
-- after restart_count + k ≡ 3.
pub restarts_run_out :
    (k grace : ℕ) (answers : List Answers) (r : Registry) (bug_id : String) (e : WorkerEntry)
    → length answers ≡ suc k
    → e.restart_count + k ≡ max_worker_restarts
    → All Answered answers
    → All (Dying bug_id) answers
    → Unique r
    → get bug_id r ≡ some e
    → is_active e ≡ true
    → RunsOut grace bug_id answers r e
restarts_run_out k grace [] r bug_id e len h answered dying u here on = absurd (omega arith)
restarts_run_out zero grace (a ∷ b ∷ rest) r bug_id e len h answered dying u here on =
    absurd (omega arith)
restarts_run_out zero grace (a ∷ []) r bug_id e len h answered dying u here on =
    let (r1, runs, u1, after) = check_all_pointwise grace a r u answered.0 in
    let (e1, dead, status, count, process) =
      after_last_death grace a bug_id e dying.0 on (omega arith) in
    let found = after bug_id ∙ ap (after_pass grace a bug_id) here ∙ dead in
    let full : e.restart_count ≡ max_worker_restarts = omega (arith, h) in
    fails a r r1 e e1 full runs found status (count ∙ full) process
restarts_run_out (suc k) grace (a ∷ rest) r bug_id e len h answered dying u here on =
    let (r1, runs, u1, after) = check_all_pointwise grace a r u answered.0 in
    let (e1, dead, active, count, process) =
      after_death grace a bug_id e dying.0 on (omega arith) in
    let found = after bug_id ∙ ap (after_pass grace a bug_id) here ∙ dead in
    restarts a rest r r1 e e1 dying.0.0 runs dying.0.1 found active count process (
      restarts_run_out k grace rest r1 bug_id e1 (omega arith) (omega arith) answered.1 dying.1 u1
        found active)
