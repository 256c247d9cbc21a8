-- ===== src/Orchestrator/Spawner.antt =====
-- orchestrator/spawner.py: `WorkerSpawner`, which runs each worker as a subprocess. The start of a
-- process is outside: it is given by the handle that it returned, or by none where it raised.
-- Stopping the old process changes no state here, and its errors are swallowed.
use dev_harness.Base.{ℕ, ◌+◌, Option, none, some, String, if◌then◌else◌}
use dev_harness.Orchestrator.Registry.{
  WorkerEntry, Registry, warmup, warmup_grace, register, get, exists,
}

-- What a worker is started for.
pub record Job : Type 0 where
  pub bug_id : String
  pub project_id : String
  pub project_web_url : String
  pub job_id : String
  pub source_branch : String

-- `_start_process`, after the process was created at the time `now`.
abbrev pub started_entry : Job → ℕ → ℕ → ℕ → WorkerEntry
started_entry job process now restart_count = record {
  bug_id = job.bug_id;
  process = process;
  project_id = job.project_id;
  project_web_url = job.project_web_url;
  job_id = job.job_id;
  source_branch = job.source_branch;
  started_at = now;
  warmup_deadline = now + warmup_grace;
  restart_count = restart_count;
  status = warmup;
  done_at = none;
}

-- The entry that is returned, and the registry; `none` is the exception of the start.
unfoldable pub spawn : Option ℕ → ℕ → Job → Registry → Option (Option WorkerEntry × Registry)
unfolding get exists
spawn process now job r = if exists job.bug_id r then some (get job.bug_id r, r) else elim process [
  | none ↦ none
  | some p ↦ let e = started_entry job p now 0 in some (some e, register e r)
]

abbrev pub next_count : Option WorkerEntry → ℕ
next_count none = 1
next_count (some old) = old.restart_count + 1

unfoldable pub restart : Option ℕ → ℕ → Job → Registry → Option Registry
unfolding get
restart process now job r = elim process [
  | none ↦ none
  | some p ↦ some (register (started_entry job p now (next_count (get job.bug_id r))) r)
]
