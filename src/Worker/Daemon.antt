-- ===== src/Worker/Daemon.antt =====
-- bf_worker/worker_daemon.py: `WorkerDaemon`, which takes tasks from its inbox and runs a worker process
-- for each. Redis, the memory and the start of a process are answers; what is asked of Redis is returned
-- in order. `waiting` are the `_reap` tasks, each with the process whose exit it awaits: these are the
-- workers that really run. `none` is an exception that ends the inbox loop.
pub mod Slots
use dev_harness.Base.{
  ℕ, ◌*◌, Bool, ◌&&◌, Option, none, some, List, [], ◌∷◌, ◌++◌, String, ℤ, is_pos, is_zero, sub_ℕ,
  leb, length, if◌then◌else◌,
}
use dev_harness.Base.Dict
use dev_harness.Base.Dict.{Dict}

pub record Daemon : Type 0 where
  pub daemon_id : String
  pub concurrency : ℕ
  pub min_free_memory_bytes : ℕ
  pub active : Dict ℕ
  pub waiting : List (String × ℕ)

pub data Request : Type 0 where
  sadd_daemon srem_daemon delete_hash create_inbox_group create_rejected_group : Request
  hset : Dict ℤ → Request
  set_owner delete_owner terminate kill : String → Request
  xadd_rejected : Dict String → Request
  xack : String → Request

unfoldable pub free_slots : Daemon → ℤ
free_slots d = sub_ℕ d.concurrency (length d.active)

-- `_can_accept`, with the available memory in bytes
unfoldable pub can_accept : ℕ → Daemon → Bool
unfolding free_slots
can_accept free_memory d = is_pos (free_slots d) && leb d.min_free_memory_bytes free_memory

-- `_write_heartbeat`, less the host name and the clock, and the time to live of the key
unfoldable pub write_heartbeat : ℤ → Daemon → List Request
write_heartbeat free_memory_mb d =
    hset (("free_slots", free_slots d) ∷ ("free_memory_mb", free_memory_mb) ∷ []) ∷ []

-- `_register`
unfoldable pub register : ℤ → Daemon → List Request
unfolding write_heartbeat
register free_memory_mb d = sadd_daemon ∷ create_inbox_group ∷ write_heartbeat free_memory_mb d

-- The worker of `bug_id` runs as `process`.
abbrev pub with_process : String → ℕ → Daemon → Daemon
with_process bug_id process d = record d {
  active = Dict.insert bug_id process d.active;
  waiting = d.waiting ++ ((bug_id, process) ∷ []);
}

-- `_accept`: the bug must be named, and the process must start.
unfoldable pub accept : String → Dict String → Option ℕ → Daemon → Option (List Request × Daemon)
accept msg_id task process d = elim (Dict.lookup "bug_id" task) [
  | none ↦ none
  | some bug_id ↦ elim process [
    | none ↦ none
    | some p ↦ some (set_owner bug_id ∷ xack msg_id ∷ [], with_process bug_id p d)
  ]
]

abbrev field : String → Dict String → String
field key task = elim (Dict.lookup key task) [ none ↦ "" | some v ↦ v ]

unfoldable pub reject_reason : Daemon → String
reject_reason d = if is_zero (free_slots d) then "no_free_slots" else "insufficient_memory"

-- `_reject`
unfoldable pub reject : String → Dict String → Daemon → List Request
unfolding reject_reason
reject msg_id task d =
    create_rejected_group
    ∷ xadd_rejected (
        ("daemon_id", d.daemon_id)
        ∷ ("bug_id", field "bug_id" task)
        ∷ ("project_id", field "project_id" task)
        ∷ ("project_web_url", field "project_web_url" task)
        ∷ ("job_id", field "job_id" task)
        ∷ ("source_branch", field "source_branch" task)
        ∷ ("reason", reject_reason d)
        ∷ [])
    ∷ xack msg_id
    ∷ []

-- The body of `_inbox_loop` for one message.
unfoldable pub take_message :
    ℕ → Option ℕ → String → Dict String → Daemon → Option (List Request × Daemon)
unfolding accept reject
take_message free_memory process msg_id task d =
    if can_accept free_memory d
    then accept msg_id task process d
    else some (reject msg_id task d, d)

-- `_reap` of a worker, after its process exited: it frees the slot of the bug, whichever process holds
-- it by then, and clears the owner, unless the slot is free already and `del` fails.
unfoldable pub reap : String → List (String × ℕ) → Daemon → List Request × Daemon
reap bug_id still_waiting d = (
  elim (Dict.lookup bug_id d.active) [ none ↦ [] | some p ↦ delete_owner bug_id ∷ [] ],
  record d { active = Dict.erase bug_id d.active; waiting = still_waiting },
)

-- What comes of the request to terminate a process, within FORCE_KILL_TIMEOUT.
pub data Quit : Type 0 where
  exits times_out fails : Quit

unfoldable pub force_kill : Quit → String → List Request
force_kill times_out bug_id = terminate bug_id ∷ kill bug_id ∷ delete_owner bug_id ∷ []
force_kill exits bug_id = terminate bug_id ∷ delete_owner bug_id ∷ []
force_kill fails bug_id = terminate bug_id ∷ delete_owner bug_id ∷ []

unfoldable pub force_kill_all : (String → Quit) → Dict ℕ → List Request
unfolding force_kill
force_kill_all quit [] = []
force_kill_all quit ((bug_id, p) ∷ active) =
    force_kill (quit bug_id) bug_id ++ force_kill_all quit active

-- `_shutdown`, where `left` are the workers at the end of the drain.
unfoldable pub shutdown : (String → Quit) → Dict ℕ → List Request
unfolding force_kill_all
shutdown quit left = srem_daemon ∷ delete_hash ∷ force_kill_all quit left
