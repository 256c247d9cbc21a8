-- ===== src/Orchestrator/Monitor.antt =====
-- orchestrator/monitor.py: `HealthMonitor`. One pass of `_check_all` over the active workers, as
-- Redis, the processes and the clock answer it. The gauges are left out. `none` is an exception that
-- leaves the pass: `_run` has no handler, so it would end the monitor's task.
pub mod Fate
pub mod Pass
pub mod Restarts
use dev_harness.Base.{
  ℕ, Bool, true, false, ◌||◌, Option, none, some, List, [], ◌∷◌, String, ℤ, pos, negsuc, is_pos,
  is_zero, ltb, leb, if◌then◌else◌,
}
use dev_harness.Base.Dict.{Dict}
use dev_harness.Orchestrator.Registry.{
  WorkerStatus, WorkerEntry, Registry, warmup, running, failed, done, max_worker_restarts, get,
  update_status, all_active, sweep_stale,
}
use dev_harness.Orchestrator.Spawner
use dev_harness.Orchestrator.Spawner.{Job}

-- The answers about one worker: the TTL of its heartbeat key, the exit code of its process, whether
-- its completion key is there, and, where it is restarted, the new process; `stamp` is the clock at
-- the change of the registry.
pub record Probe : Type 0 where
  pub ttl : ℤ
  pub returncode : Option ℤ
  pub completed : Bool
  pub stamp : ℕ
  pub started : Option ℕ

-- A pass: its clock, the clock of the sweep, and a probe for each worker, or none where Redis raised.
pub record Answers : Type 0 where
  pub now : ℕ
  pub sweep_at : ℕ
  pub probe : String → Option Probe

abbrev pub job_of : String → WorkerEntry → Job
job_of bug_id e = record {
  bug_id = bug_id;
  project_id = e.project_id;
  project_web_url = e.project_web_url;
  job_id = e.job_id;
  source_branch = e.source_branch;
}

-- A failed restart marks the worker failed.
caught : Probe → String → Registry → Option Registry → Registry
caught p bug_id r none = update_status p.stamp bug_id failed r
caught p bug_id r (some r') = r'

-- `_restart`; without an entry it reads a field of None.
unfoldable pub restart : Probe → String → Registry → Option Registry
unfolding get caught
restart p bug_id r = elim (get bug_id r) [
  | none ↦ none
  | some e ↦
      if leb max_worker_restarts e.restart_count
      then some (update_status p.stamp bug_id failed r)
      else some (caught p bug_id r (Spawner.restart p.started p.stamp (job_of bug_id e) r))
]

-- The process has exited with `rc`.
check_exit : Probe → ℤ → String → Registry → Option Registry
check_exit p rc bug_id r =
    if is_zero rc || p.completed
    then some (update_status p.stamp bug_id done r)
    else restart p bug_id r

abbrev is_warmup : WorkerStatus → Bool
is_warmup warmup = true
is_warmup _ = false

-- The process has not exited, as far as is known.
check_heartbeat : Probe → ℕ → String → WorkerEntry → Registry → Option Registry
check_heartbeat p now bug_id e r =
    if is_pos p.ttl
    then some (if is_warmup e.status then update_status p.stamp bug_id running r else r)
    else if is_warmup e.status
    then some (if ltb now e.warmup_deadline then r else update_status p.stamp bug_id failed r)
    else if p.completed
    then some (update_status p.stamp bug_id done r)
    else restart p bug_id r

-- The body of the loop for one worker.
unfoldable pub check_worker : Probe → ℕ → String → WorkerEntry → Registry → Option Registry
unfolding check_exit check_heartbeat restart
check_worker p now bug_id e r = elim p.returncode [
  | some rc ↦ check_exit p rc bug_id r
  | none ↦ check_heartbeat p now bug_id e r
]

-- The loop over a snapshot of the active workers.
unfoldable pub check_each : Answers → Dict WorkerEntry → Registry → Option Registry
check_each a [] r = some r
check_each a ((bug_id, e) ∷ rest) r = elim (a.probe bug_id) [
  | none ↦ none
  | some p ↦ elim (check_worker p a.now bug_id e r) [ none ↦ none | some r' ↦ check_each a rest r' ]
]

-- `_check_all`
unfoldable pub check_all : ℕ → Answers → Registry → Option Registry
unfolding check_each
check_all grace a r =
    let (swept, removed) = sweep_stale a.sweep_at grace r in check_each a (all_active swept) swept

-- The passes of `_run`, one after the other.
unfoldable pub passes : ℕ → List Answers → Registry → Option Registry
unfolding check_all
passes grace [] r = some r
passes grace (a ∷ rest) r = elim (check_all grace a r) [
  | none ↦ none
  | some r' ↦ passes grace rest r'
]
