-- ===== src/Orchestrator/Registry.antt =====
-- orchestrator/models.py (WorkerEntry) and orchestrator/registry.py. Times are milliseconds; a process
-- is the number of its handle. An entry is a mutable object that only the registry holds, so a change
-- of its status is an assignment under its key.
pub mod Sweep
use dev_harness.Base.{
  ℕ, ◌-◌, ◌+◌, Bool, true, false, not, ◌&&◌, Option, none, some, [], ◌∷◌, String, leb, is_some,
  if◌then◌else◌,
}
use dev_harness.Base.Dict
use dev_harness.Base.Dict.{Dict}

pub data WorkerStatus : Type 0 where
  warmup running failed done : WorkerStatus

abbrev pub warmup_grace : ℕ
warmup_grace = 120_000

abbrev pub max_worker_restarts : ℕ
max_worker_restarts = 3

pub record WorkerEntry : Type 0 where
  pub bug_id : String
  pub process : ℕ
  pub project_id : String
  pub project_web_url : String
  pub job_id : String
  pub source_branch : String
  pub started_at : ℕ
  pub warmup_deadline : ℕ
  pub restart_count : ℕ
  pub status : WorkerStatus
  pub done_at : Option ℕ

abbrev pub Registry : Type 0
Registry = Dict WorkerEntry

abbrev pub is_terminal : WorkerStatus → Bool
is_terminal done = true
is_terminal failed = true
is_terminal _ = false

abbrev pub is_active : WorkerEntry → Bool
is_active e = not (is_terminal e.status)

unfoldable pub register : WorkerEntry → Registry → Registry
register e r = Dict.insert e.bug_id e r

unfoldable pub get : String → Registry → Option WorkerEntry
get bug_id r = Dict.lookup bug_id r

abbrev first_stamp : ℕ → Option ℕ → Option ℕ
first_stamp now none = some now
first_stamp now (some t) = some t

-- `done_at` is stamped by the first terminal status only.
unfoldable pub with_status : ℕ → WorkerStatus → WorkerEntry → WorkerEntry
with_status now status e = record e {
  status = status;
  done_at = if is_terminal status then first_stamp now e.done_at else e.done_at;
}

unfoldable pub update_status : ℕ → String → WorkerStatus → Registry → Registry
unfolding with_status
update_status now bug_id status r = elim (Dict.lookup bug_id r) [
  | none ↦ r
  | some e ↦ Dict.insert bug_id (with_status now status e) r
]

unfoldable pub remove : String → Registry → Registry
remove bug_id r = Dict.erase bug_id r

unfoldable pub all_active : Registry → Registry
unfolding Dict.keep
all_active r = Dict.keep is_active r

unfoldable pub exists : String → Registry → Bool
exists bug_id r = elim (Dict.lookup bug_id r) [ none ↦ false | some e ↦ is_active e ]

-- Terminal for longer than the grace period. A clock that went back gives an age of 0.
abbrev outlived : ℕ → ℕ → Option ℕ → Bool
outlived now grace none = false
outlived now grace (some t) = not (leb (now - t) grace)

unfoldable pub is_stale : ℕ → ℕ → WorkerEntry → Bool
is_stale now grace e = is_terminal e.status && outlived now grace e.done_at

-- `sweep_stale`: the registry without the stale entries, and how many went.
unfoldable pub sweep_stale : ℕ → ℕ → Registry → Registry × ℕ
unfolding is_stale
sweep_stale now grace [] = ([], 0)
sweep_stale now grace ((k, e) ∷ r) =
    let (rest, removed) = sweep_stale now grace r in
    if is_stale now grace e then (rest, removed + 1) else ((k, e) ∷ rest, removed)
