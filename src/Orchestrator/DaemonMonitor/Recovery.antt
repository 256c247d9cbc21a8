-- ===== src/Orchestrator/DaemonMonitor/Recovery.antt =====
-- That orchestrator/daemon_monitor.py loses no task that it finds.
use dev_harness.Base.{
  ℕ, zero, suc, ◌≡◌, ◌≢◌, refl, sym, ◌∙◌, ap, inl, inr, Option, none, some, List, [], ◌∷◌, ◌++◌,
  map, String, All, ltb, ◌-◌, Bool-cases, Option-cases, if◌then◌else◌,
}
use mathlib.Core.Path.{ap₂}
use dev_harness.Base.Dict
use dev_harness.Base.Dict.{Dict}
use dev_harness.Orchestrator.Spawner.{Job}
use dev_harness.Orchestrator.Dispatcher.{
  Dispatcher, Members, read_members, maybe_refresh_cache, choose, choose_daemon,
}
use dev_harness.Orchestrator.Dispatcher.Tasks.{
  Stream, inbox, pending, rejected, Command, dispatch_to, xgroup_create, xadd, fields_of, spawn_raw,
}
use dev_harness.Orchestrator.DaemonMonitor.{
  Request, dispatcher_asks, xack, delete_stream, srem_daemon, delete_hash, Message, InboxAnswer,
  redispatch, recover_inbox, DaemonAnswer, StreamAnswer, recover_dead_daemons, retry_stream, tick,
}

abbrev text_at : String → Dict String → String
text_at key fields = elim (Dict.lookup key fields) [ none ↦ "" | some v ↦ v ]

-- The task that the fields of a message describe; others, as the reason of a rejection, are no part of it.
pub task : Dict String → Job
task fields = record {
  bug_id = text_at "bug_id" fields;
  project_id = text_at "project_id" fields;
  project_web_url = text_at "project_web_url" fields;
  job_id = text_at "job_id" fields;
  source_branch = text_at "source_branch" fields;
}

task-fields_of : (job : Job) → task (fields_of job) ≡ job
unfolding task Dict.lookup
task-fields_of job = refl

-- The tasks that are added to some stream.
abbrev pub readded : List Request → List Job
readded [] = []
readded (dispatcher_asks (xadd s fields) ∷ rs) = task fields ∷ readded rs
readded (_ ∷ rs) = readded rs

-- The messages that are acknowledged.
abbrev pub acked : List Request → List String
acked [] = []
acked (xack s g msg_id ∷ rs) = msg_id ∷ acked rs
acked (_ ∷ rs) = acked rs

-- The tasks of the messages.
abbrev pub bodies : List Message → List Job
bodies [] = []
bodies (m ∷ ms) = elim m.fields [ none ↦ bodies ms | some fields ↦ task fields ∷ bodies ms ]

-- A message whose fields name a bug, for which the dispatcher can read the daemons' hashes.
pub record Readable (m : Message) : Type 0 where
  pub body : Dict String
  pub written : m.fields ≡ some body
  pub bug_id : String
  pub named : Dict.lookup "bug_id" body ≡ some bug_id
  pub hashes : read_members [] m.members ≢ none

maybe_refresh_some :
    (now : ℕ) (members : Members) (d : Dispatcher)
    → read_members [] members ≢ none
    → (d1 : Dispatcher) × (maybe_refresh_cache now members d ≡ some d1)
unfolding maybe_refresh_cache
maybe_refresh_some now members d h =
    elim (Bool-cases (ltb (now - d.cache_fetched_at) d.cache_ttl)) [
      | inl e ↦ (d, rw e)
      | inr e ↦ elim (Option-cases (read_members [] members)) [
        | inl q ↦ absurd (h q)
        | inr (cache, q) ↦ (
          record d { daemon_cache = cache; cache_fetched_at = now },
          rw (e, q, maybe_refresh_cache),
        )
      ]
    ]

-- The task that the dispatcher reads.
abbrev named_task : String → Dict String → Job
named_task bug_id fields = record (task fields) { bug_id = bug_id }

named_task-task :
    (bug_id : String) (fields : Dict String)
    → Dict.lookup "bug_id" fields ≡ some bug_id
    → task (fields_of (named_task bug_id fields)) ≡ task fields
unfolding task
named_task-task bug_id fields h =
    let same : text_at "bug_id" fields ≡ bug_id = rw (h, text_at) refl in
    task-fields_of (named_task bug_id fields)
    ∙ ap (λ b. record (task fields) { bug_id = b }) (sym same)

-- Dispatching a task again adds it once, whatever the choice.
spawn_raw-some :
    (now : ℕ) (members : Members) (body : Dict String) (bug_id : String) (d d1 : Dispatcher)
    → Dict.lookup "bug_id" body ≡ some bug_id
    → maybe_refresh_cache now members d ≡ some d1
    → (cs : List Command) × (d' : Dispatcher) × (spawn_raw now members body d ≡ some (cs, d'))
      × ((rs : List Request) → readded (map dispatcher_asks cs ++ rs) ≡ task body ∷ readded rs)
      × ((rs : List Request) → acked (map dispatcher_asks cs ++ rs) ≡ acked rs)
unfolding spawn_raw choose_daemon task
spawn_raw-some now members body bug_id d d1 named h = elim (Option-cases (choose d1).0) [
  | inl e ↦ (
    xadd pending body ∷ [],
    (choose d1).1,
    rw (h, e, spawn_raw, choose_daemon),
    λ rs. refl,
    λ rs. refl,
  )
  | inr (id, e) ↦ (
    dispatch_to id (named_task bug_id body),
    (choose d1).1,
    rw (h, e, named, spawn_raw, choose_daemon),
    λ rs. ap (λ t. t ∷ readded rs) (named_task-task bug_id body named),
    λ rs. refl,
  )
]

-- If every message can be read, each is dispatched once and acknowledged once, in order.
redispatch_lem :
    (stream : Stream) (group : String) (ms : List Message) (d : Dispatcher)
    → All Readable ms
    → (rs : List Request) × (d' : Dispatcher) × (redispatch stream group ms d ≡ some (rs, d'))
      × (readded rs ≡ bodies ms)
      × (acked rs ≡ map (λ m. m.msg_id) ms)
unfolding redispatch
redispatch_lem stream group [] d h = ([], d, refl, refl, refl)
redispatch_lem stream group (m ∷ ms) d h =
    let (d1, refreshed) = maybe_refresh_some m.now m.members d h.0.hashes in
    let (cs, d', sent, adds, acks) =
      spawn_raw-some m.now m.members h.0.body h.0.bug_id d d1 h.0.named refreshed in
    let (rs, d'', runs, all_added, all_acked) = redispatch_lem stream group ms d' h.1 in
    (
      map dispatcher_asks cs ++ (xack stream group m.msg_id ∷ rs),
      d'',
      rw (h.0.written, redispatch) (rw (sent, redispatch) (rw (runs, redispatch))),
      adds _ ∙ rw (h.0.written, bodies) (ap (λ l. task h.0.body ∷ l) all_added),
      acks _ ∙ ap (λ l. m.msg_id ∷ l) all_acked,
    )

readded-append : (rs rs' : List Request) → readded (rs ++ rs') ≡ readded rs ++ readded rs'
readded-append [] rs' = refl
readded-append (dispatcher_asks (xadd s fields) ∷ rs) rs' =
    ap (λ l. task fields ∷ l) (readded-append rs rs')
readded-append (_ ∷ rs) rs' = readded-append rs rs'

append_nil : {A : Type 0} (xs : List A) → xs ++ [] ≡ xs
append_nil [] = refl
append_nil (x ∷ xs) = ap (λ l. x ∷ l) (append_nil xs)

-- If the inbox of a dead daemon holds unacknowledged messages, and each can be read, the recovery
-- raises nothing, adds the task of each message to some stream exactly once, in order, and deletes
-- the inbox as the last thing it asks.
pub recover_inbox_lem :
    (daemon_id : String) (n : ℕ) (a : InboxAnswer) (d : Dispatcher)
    → a.pending_count ≡ some (suc n)
    → All Readable a.entries
    → (rs : List Request) × (d' : Dispatcher) × (recover_inbox daemon_id a d
        ≡ some (rs ++ (delete_stream (inbox daemon_id) ∷ []), d'))
      × (readded (rs ++ (delete_stream (inbox daemon_id) ∷ [])) ≡ bodies a.entries)
unfolding recover_inbox
recover_inbox_lem daemon_id n a d count h =
    let (rs, d', runs, all_added, all_acked) =
      redispatch_lem (inbox daemon_id) "daemon-group" a.entries d h in
    (
      rs,
      d',
      rw (count, recover_inbox) (rw (runs, recover_inbox)),
      readded-append rs _ ∙ append_nil (readded rs) ∙ all_added,
    )

-- The tasks that are found in the inbox of a daemon.
abbrev unread : Option ℕ → List Message → List Job
unread (some (suc n)) ms = bodies ms
unread _ ms = []

-- The tasks that are found in the inboxes of the dead daemons.
abbrev pub found : List DaemonAnswer → List Job
found [] = []
found (a ∷ rest) =
    if a.exists
    then found rest
    else unread a.inbox_answer.pending_count a.inbox_answer.entries ++ found rest

recover_inbox-some :
    (daemon_id : String) (count : Option ℕ) (a : InboxAnswer) (d : Dispatcher)
    → a.pending_count ≡ count
    → All Readable a.entries
    → (rs : List Request) × (d' : Dispatcher) × (recover_inbox daemon_id a d ≡ some (rs, d'))
      × (readded rs ≡ unread count a.entries)
unfolding recover_inbox
recover_inbox-some daemon_id none a d e h = ([], d, rw e, refl)
recover_inbox-some daemon_id (some zero) a d e h = ([], d, rw e, refl)
recover_inbox-some daemon_id (some (suc n)) a d e h =
    let (rs, d', runs, all_added) = recover_inbox_lem daemon_id n a d e h in
    (_, d', runs, all_added)

recover_dead_daemons-some :
    (daemons : List DaemonAnswer) (d : Dispatcher)
    → All (λ a. All Readable a.inbox_answer.entries) daemons
    → (rs : List Request) × (d' : Dispatcher) × (recover_dead_daemons daemons d ≡ some (rs, d'))
      × (readded rs ≡ found daemons)
unfolding recover_dead_daemons
recover_dead_daemons-some [] d h = ([], d, refl, refl)
recover_dead_daemons-some (a ∷ rest) d h = elim (Bool-cases a.exists) [
  | inl e ↦
      let (rs, d', runs, added) = recover_dead_daemons-some rest d h.1 in
      (rs, d', rw (e, recover_dead_daemons) runs, rw (e, found) added)
  | inr e ↦
      let (rs, d1, runs, added) =
        recover_inbox-some a.daemon_id a.inbox_answer.pending_count a.inbox_answer d refl h.0 in
      let (rs', d2, runs', added') = recover_dead_daemons-some rest d1 h.1 in
      (
        rs ++ (srem_daemon a.daemon_id ∷ delete_hash a.daemon_id ∷ rs'),
        d2,
        rw (e, recover_dead_daemons)
            (rw (runs, recover_dead_daemons) (rw (runs', recover_dead_daemons))),
        rw (e, found) (readded-append rs _ ∙ ap₂ (λ x y. x ++ y) added added'),
      )
]

retry_stream-some :
    (stream : Stream) (a : StreamAnswer) (d : Dispatcher)
    → All Readable a.claimed
    → All Readable a.fresh
    → (rs : List Request) × (d' : Dispatcher) × (retry_stream stream a d ≡ some (rs, d'))
      × (readded rs ≡ bodies a.claimed ++ bodies a.fresh)
unfolding retry_stream
retry_stream-some stream a d h h' =
    let (rs, d1, runs, added, _) = redispatch_lem stream "orch-group" a.claimed d h in
    let (rs', d2, runs', added', _) = redispatch_lem stream "orch-group" a.fresh d1 h' in
    (
      dispatcher_asks (xgroup_create stream "orch-group") ∷ (rs ++ rs'),
      d2,
      rw (runs, retry_stream) (rw (runs', retry_stream)),
      readded-append rs rs' ∙ ap₂ (λ x y. x ++ y) added added',
    )

-- If every message that a tick finds names a bug, the hashes of the daemons can be read and Redis carries
-- out every write, the tick raises nothing and adds the task of each message, the five fields that a
-- daemon reads, to some stream exactly once: first those of the dead daemons' inboxes, then the pending
-- ones, then the rejected ones, whatever other fields they have.
pub tick_lem :
    (daemons : List DaemonAnswer) (waiting refused : StreamAnswer) (d : Dispatcher)
    → All (λ a. All Readable a.inbox_answer.entries) daemons
    → All Readable waiting.claimed
    → All Readable waiting.fresh
    → All Readable refused.claimed
    → All Readable refused.fresh
    → (rs : List Request) × (d' : Dispatcher) × (tick daemons waiting refused d ≡ some (rs, d'))
      × (readded rs
          ≡ found daemons
            ++ ((bodies waiting.claimed ++ bodies waiting.fresh)
                ++ (bodies refused.claimed ++ bodies refused.fresh)))
unfolding tick
tick_lem daemons waiting refused d h w w' r r' =
    let (rs1, d1, runs1, added1) = recover_dead_daemons-some daemons d h in
    let (rs2, d2, runs2, added2) = retry_stream-some pending waiting d1 w w' in
    let (rs3, d3, runs3, added3) = retry_stream-some rejected refused d2 r r' in
    (
      rs1 ++ (rs2 ++ rs3),
      d3,
      rw (runs1, tick) (rw (runs2, tick) (rw (runs3, tick))),
      readded-append rs1 (rs2 ++ rs3)
          ∙ ap₂ (λ x y. x ++ y) added1 (readded-append rs2 rs3 ∙ ap₂ (λ x y. x ++ y) added2 added3),
    )
