-- ===== src/Orchestrator/DaemonMonitor.antt =====
-- orchestrator/daemon_monitor.py: `DaemonMonitor`, which gives the tasks of dead daemons, and the
-- pending and the rejected tasks, to the dispatcher again. Redis is outside: its answers are arguments
-- and what is asked of it is returned in order. `none` is an exception, which ends the tick.
pub mod Recovery
use dev_harness.Base.{
  ℕ, zero, suc, Bool, true, false, Option, none, some, List, [], ◌∷◌, ◌++◌, map, String, ◌>>=◌,
}
use dev_harness.Base.Dict.{Dict}
use dev_harness.Orchestrator.Dispatcher.{Dispatcher, Members}
use dev_harness.Orchestrator.Dispatcher.Tasks.{
  Stream, inbox, pending, rejected, Command, xgroup_create, spawn_raw,
}

-- What the monitor asks of Redis itself, and what the dispatcher asks for it.
pub data Request : Type 0 where
  dispatcher_asks : Command → Request
  xack : Stream → String → String → Request
  delete_stream : Stream → Request
  srem_daemon delete_hash : String → Request

-- A message of a stream: its id, its fields, or none where the stream has dropped it, and what the
-- dispatcher reads while it is dispatched.
pub record Message : Type 0 where
  pub msg_id : String
  pub fields : Option (Dict String)
  pub now : ℕ
  pub members : Members

-- Each message is dispatched and then acknowledged; a dropped one is passed over.
unfoldable pub redispatch :
    Stream → String → List Message → Dispatcher → Option (List Request × Dispatcher)
redispatch stream group [] d = some ([], d)
redispatch stream group (m ∷ ms) d = elim m.fields [
  | none ↦ redispatch stream group ms d
  | some fields ↦ elim (spawn_raw m.now m.members fields d) [
    | none ↦ none
    | some (cs, d') ↦ elim (redispatch stream group ms d') [
      | none ↦ none
      | some (rs, d'') ↦ some (map dispatcher_asks cs ++ (xack stream group m.msg_id ∷ rs), d'')
    ]
  ]
]

-- What is known of the inbox of a daemon: the number of its unacknowledged messages, or none where
-- that raised or is missing, and these messages.
pub record InboxAnswer : Type 0 where
  pub pending_count : Option ℕ
  pub entries : List Message

abbrev then_ask :
    List Request → Option (List Request × Dispatcher) → Option (List Request × Dispatcher)
then_ask more none = none
then_ask more (some (rs, d)) = some (rs ++ more, d)

-- `_recover_inbox`
unfoldable pub recover_inbox :
    String → InboxAnswer → Dispatcher → Option (List Request × Dispatcher)
recover_inbox daemon_id a d = elim a.pending_count [
  | none ↦ some ([], d)
  | some n ↦ elim n [
    | zero ↦ some ([], d)
    | suc _ ↦
        then_ask (delete_stream (inbox daemon_id) ∷ [])
          (redispatch (inbox daemon_id) "daemon-group" a.entries d)
  ]
]

-- One member of the set of daemons: whether its hash is there, and its inbox.
pub record DaemonAnswer : Type 0 where
  pub daemon_id : String
  pub exists : Bool
  pub inbox_answer : InboxAnswer

-- `_recover_dead_daemons`
unfoldable pub recover_dead_daemons :
    List DaemonAnswer → Dispatcher → Option (List Request × Dispatcher)
unfolding recover_inbox
recover_dead_daemons [] d = some ([], d)
recover_dead_daemons (a ∷ rest) d = elim a.exists [
  | true ↦ recover_dead_daemons rest d
  | false ↦ elim (recover_inbox a.daemon_id a.inbox_answer d) [
    | none ↦ none
    | some (rs, d') ↦ elim (recover_dead_daemons rest d') [
      | none ↦ none
      | some (rs', d'') ↦
          some (rs ++ (srem_daemon a.daemon_id ∷ delete_hash a.daemon_id ∷ rs'), d'')
    ]
  ]
]

-- A recovery stream: the messages left over by an earlier orchestrator that could be claimed, and the
-- new ones; a read that raised gives no message.
pub record StreamAnswer : Type 0 where
  pub claimed : List Message
  pub fresh : List Message

-- `_retry_stream`, with `_claim_and_retry` in it
unfoldable pub retry_stream :
    Stream → StreamAnswer → Dispatcher → Option (List Request × Dispatcher)
retry_stream stream a d = do
  first ← redispatch stream "orch-group" a.claimed d
  second ← redispatch stream "orch-group" a.fresh first.1
  some (dispatcher_asks (xgroup_create stream "orch-group") ∷ (first.0 ++ second.0), second.1)

-- `_tick`
unfoldable pub tick :
    List DaemonAnswer
    → StreamAnswer
    → StreamAnswer
    → Dispatcher
    → Option (List Request × Dispatcher)
unfolding recover_dead_daemons retry_stream
tick daemons waiting refused d = do
  first ← recover_dead_daemons daemons d
  second ← retry_stream pending waiting first.1
  third ← retry_stream rejected refused second.1
  some (first.0 ++ (second.0 ++ third.0), third.1)
