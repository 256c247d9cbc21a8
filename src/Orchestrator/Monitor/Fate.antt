-- ===== src/Orchestrator/Monitor/Fate.antt =====
-- What the health monitor (orchestrator/monitor.py) decides for one worker, as a table.
use dev_harness.Base.{
  ℕ, ◌+◌, ◌≡◌, subst, inl, inr, ◌||◌, Option, none, some, String, str_eq, eq_iff, ℤ, is_pos,
  is_zero, ltb, leb, arith, if◌then◌else◌, Bool-cases,
}
use dev_harness.Base.Dict
use dev_harness.Base.Dict.{
  Dict, Unique, only, lookup-insert, lookup-keep, Unique-keep, Unique-insert, lookup-nil,
  lookup-cons, ne_of_lookup,
}
use dev_harness.Orchestrator.Registry.{
  WorkerStatus, WorkerEntry, Registry, running, failed, done, max_worker_restarts, register, get,
  with_status, update_status,
}
use dev_harness.Orchestrator.Spawner
use dev_harness.Orchestrator.Spawner.{started_entry}
use dev_harness.Orchestrator.Monitor.{Probe, job_of, is_warmup, restart, check_worker}

-- What becomes of a worker: nothing, a new status, or a new process.
pub data Fate : Type 0 where
  unchanged : Fate
  marked : WorkerStatus → Fate
  respawned : ℕ → Fate

abbrev or_failed : Option ℕ → Fate
or_failed none = marked failed
or_failed (some process) = respawned process

-- A worker that died.
abbrev pub fate_of_dead : Probe → WorkerEntry → Fate
fate_of_dead p e =
    if leb max_worker_restarts e.restart_count then marked failed else or_failed p.started

abbrev pub fate_of_exit : Probe → WorkerEntry → ℤ → Fate
fate_of_exit p e rc = if is_zero rc || p.completed then marked done else fate_of_dead p e

abbrev fate_of_warmup : Probe → ℕ → WorkerEntry → Fate
fate_of_warmup p now e =
    if is_pos p.ttl
    then marked running
    else if ltb now e.warmup_deadline
    then unchanged
    else marked failed

abbrev fate_of_running : Probe → WorkerEntry → Fate
fate_of_running p e =
    if is_pos p.ttl then unchanged else if p.completed then marked done else fate_of_dead p e

abbrev pub fate : Probe → ℕ → WorkerEntry → Fate
fate p now e = elim p.returncode [
  | some rc ↦ fate_of_exit p e rc
  | none ↦ if is_warmup e.status then fate_of_warmup p now e else fate_of_running p e
]

-- The entry of `bug_id` after its fate.
abbrev pub meet_fate : Probe → String → WorkerEntry → Fate → WorkerEntry
meet_fate p bug_id e unchanged = e
meet_fate p bug_id e (marked status) = with_status p.stamp status e
meet_fate p bug_id e (respawned process) =
    started_entry (job_of bug_id e) process p.stamp (e.restart_count + 1)

abbrev pub put_fate : Probe → String → WorkerEntry → Registry → Fate → Registry
put_fate p bug_id e r unchanged = r
put_fate p bug_id e r (marked status) = Dict.insert bug_id (with_status p.stamp status e) r
put_fate p bug_id e r (respawned process) =
    Dict.insert bug_id (started_entry (job_of bug_id e) process p.stamp (e.restart_count + 1)) r

module _ (p : Probe) (bug_id : String) (e : WorkerEntry) (r : Registry)
    (found : get bug_id r ≡ some e) where
  update-put_fate :
      (status : WorkerStatus)
      → update_status p.stamp bug_id status r ≡ Dict.insert bug_id (with_status p.stamp status e) r
  unfolding update_status get
  update-put_fate status = rw (found, update_status)

  restart-put_fate : restart p bug_id r ≡ some (put_fate p bug_id e r (fate_of_dead p e))
  unfolding restart Spawner.restart register
  restart-put_fate = ground (arith, update-put_fate failed)

  pub check_worker-put_fate :
      (now : ℕ) → check_worker p now bug_id e r ≡ some (put_fate p bug_id e r (fate p now e))
  unfolding check_worker
  check_worker-put_fate now = ground (
    arith,
    update-put_fate running,
    update-put_fate failed,
    update-put_fate done,
    restart-put_fate,
  )

  pub lookup-put_fate :
      (f : Fate) (j : String)
      → get j (put_fate p bug_id e r f)
        ≡ (if str_eq bug_id j then some (meet_fate p bug_id e f) else get j r)
  unfolding get
  lookup-put_fate unchanged j = elim (Bool-cases (str_eq bug_id j)) [
    | inl q ↦ rw q (subst (λ i. Dict.lookup i r ≡ some e) ((eq_iff bug_id j).0 q) found)
    | inr q ↦ rw q
  ]
  lookup-put_fate (marked status) j = lookup-insert bug_id j _ r
  lookup-put_fate (respawned process) j = lookup-insert bug_id j _ r

pub Unique-put_fate :
    (p : Probe) (bug_id : String) (e : WorkerEntry) (r : Registry) (f : Fate)
    → Unique r
    → Unique (put_fate p bug_id e r f)
Unique-put_fate p bug_id e r unchanged u = u
Unique-put_fate p bug_id e r (marked status) u = Unique-insert bug_id _ r u
Unique-put_fate p bug_id e r (respawned process) u = Unique-insert bug_id _ r u
