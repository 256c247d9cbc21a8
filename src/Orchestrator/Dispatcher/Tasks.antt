-- ===== src/Orchestrator/Dispatcher/Tasks.antt =====
-- orchestrator/dispatcher.py: what `spawn`, `restart` and `spawn_raw` ask of Redis for a task.
pub mod Delivery
use dev_harness.Base.{ℕ, Option, none, some, List, [], ◌∷◌, String, ◌>>=◌}
use dev_harness.Base.Dict
use dev_harness.Base.Dict.{Dict}
use dev_harness.Orchestrator.Spawner.{Job}
use dev_harness.Orchestrator.Dispatcher.{Dispatcher, Members, choose_daemon}

-- The inbox of a daemon, the queue of pending tasks and the queue of rejected ones.
pub data Stream : Type 0 where
  inbox : String → Stream
  pending rejected : Stream

-- What is asked of Redis; the errors of the creation of a group are swallowed.
pub data Command : Type 0 where
  xgroup_create : Stream → String → Command
  xadd : Stream → Dict String → Command

-- The fields of a task; `source_branch or ""` is the text itself.
abbrev pub fields_of : Job → Dict String
fields_of job =
    ("bug_id", job.bug_id)
    ∷ ("project_id", job.project_id)
    ∷ ("project_web_url", job.project_web_url)
    ∷ ("job_id", job.job_id)
    ∷ ("source_branch", job.source_branch)
    ∷ []

abbrev pub dispatch_to : String → Job → List Command
dispatch_to daemon_id job =
    xgroup_create (inbox daemon_id) "daemon-group" ∷ xadd (inbox daemon_id) (fields_of job) ∷ []

abbrev pub enqueue_pending : Job → List Command
enqueue_pending job = xgroup_create pending "orch-group" ∷ xadd pending (fields_of job) ∷ []

abbrev pub send : Job → Option String → List Command
send job none = enqueue_pending job
send job (some daemon_id) = dispatch_to daemon_id job

unfoldable pub spawn : ℕ → Members → Job → Dispatcher → Option (List Command × Dispatcher)
spawn now members job d = do
  choice ← choose_daemon now members d
  some (send job choice.0, choice.1)

-- `restart` does nothing.
pub restart : Job → Dispatcher → List Command × Dispatcher
restart job d = ([], d)

abbrev field : String → Dict String → String
field key fields = elim (Dict.lookup key fields) [ none ↦ "" | some v ↦ v ]

-- `fields["bug_id"]` must be there, the other fields are optional.
task_from : Dict String → Option Job
task_from fields = do
  bug_id ← Dict.lookup "bug_id" fields
  some (record {
    bug_id = bug_id;
    project_id = field "project_id" fields;
    project_web_url = field "project_web_url" fields;
    job_id = field "job_id" fields;
    source_branch = field "source_branch" fields;
  })

send_raw : Dict String → Option String → Option (List Command)
unfolding task_from
send_raw fields none = some (xadd pending fields ∷ [])
send_raw fields (some daemon_id) = do job ← task_from fields; some (dispatch_to daemon_id job)

unfoldable pub spawn_raw :
    ℕ → Members → Dict String → Dispatcher → Option (List Command × Dispatcher)
unfolding send_raw
spawn_raw now members fields d = do
  choice ← choose_daemon now members d
  commands ← send_raw fields choice.0
  some (commands, choice.1)
