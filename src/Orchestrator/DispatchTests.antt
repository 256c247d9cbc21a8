-- ===== src/Orchestrator/DispatchTests.antt =====
-- Concrete dispatches: the theorems at inputs where their conditions hold.
use dev_harness.Base.{
  ℕ, ◌<◌, ◌≡◌, refl, Bool, true, false, some, List, [], ◌∷◌, ◌++◌, String, pos, arith, length,
  str_eq,
}
use dev_harness.Base.Dict
use dev_harness.Base.Dict.{Dict}
use dev_harness.Base.Sorting.{sorted}
use dev_harness.Base.Text.{parse_int}
use dev_harness.Orchestrator.Spawner.{Job}
use dev_harness.Orchestrator.Dispatcher.{
  DaemonInfo, Dispatcher, Members, from_hash, read_members, eligible, scan, maybe_refresh_cache,
  choose_among, choose,
}
use dev_harness.Orchestrator.DaemonMonitor.{
  Request, Message, InboxAnswer, DaemonAnswer, StreamAnswer, tick,
}
use dev_harness.Orchestrator.DaemonMonitor.Recovery.{Readable, readded, bodies, found, tick_lem}
use dev_harness.Orchestrator.Dispatcher.Choice.{TakesFirst, choose-TakesFirst, in_order}
use dev_harness.Orchestrator.Dispatcher.Turns.{Among, turns, every_daemon_gets_its_turn}
use dev_harness.Orchestrator.Dispatcher.Tasks.{Command, fields_of, spawn}
use dev_harness.Orchestrator.Dispatcher.Tasks.Delivery.{Delivered, spawn_delivers_once}

abbrev daemon : String → ℕ → DaemonInfo
daemon id slots = record {
  daemon_id = id;
  free_slots = pos slots;
  free_memory_mb = pos 4096;
  hostname = "";
  concurrency = pos 2;
  last_hb_ts = pos 1700;
}

abbrev three : Dict DaemonInfo
three = ("b", daemon "b" 0) ∷ ("a", daemon "a" 0) ∷ ("c", daemon "c" 1) ∷ []

abbrev dispatcher : Dispatcher
dispatcher = record {
  cache_ttl = 5000;
  min_free_memory_mb = 2048;
  judge_pointer = 0;
  daemon_cache = three;
  cache_fetched_at = 1000;
}

-- The full daemons are passed over, and the pointer wraps around.
takes_c : ((choose dispatcher).0 ≡ some "c") × ((choose dispatcher).1.judge_pointer ≡ 0)
unfolding choose choose_among scan eligible sorted Dict.lookup
takes_c = (refl, refl)

three_daemons : 0 < length (in_order dispatcher)
unfolding sorted
three_daemons = omega arith

choose-TakesFirst_example :
    TakesFirst dispatcher ((choose dispatcher).0, (choose dispatcher).1.judge_pointer)
choose-TakesFirst_example = choose-TakesFirst dispatcher three_daemons

abbrev only_b : String → Bool
only_b = str_eq "b"

abbrev anyone : String → Bool
anyone id = true

every_daemon_gets_its_turn_example :
    Among (some "b") (turns ("a" ∷ "b" ∷ "c" ∷ []) 2 (anyone ∷ anyone ∷ only_b ∷ []))
every_daemon_gets_its_turn_example =
    every_daemon_gets_its_turn ("a" ∷ "b" ∷ "c" ∷ []) "b" 1 2 (anyone ∷ anyone ∷ only_b ∷ []) refl
      (omega arith) (refl, (refl, (refl, tt))) refl

abbrev job : Job
job = record {
  bug_id = "BUG-9";
  project_id = "7";
  project_web_url = "https://gitlab/x";
  job_id = "55";
  source_branch = "";
}

abbrev members : Members
members =
    ("d1", ("free_slots", "2") ∷ ("free_memory_mb", "9000") ∷ ("last_hb_ts", "17") ∷ [])
    ∷ ("gone", [])
    ∷ []

abbrev refreshed : Dispatcher
refreshed = record dispatcher {
  daemon_cache =
      (
        "d1",
        record {
          daemon_id = "d1";
          free_slots = pos 2;
          free_memory_mb = pos 9000;
          hostname = "";
          concurrency = pos 0;
          last_hb_ts = pos 17;
        },
      )
      ∷ [];
  cache_fetched_at = 9000;
}

refreshes : maybe_refresh_cache 9000 members dispatcher ≡ some refreshed
unfolding maybe_refresh_cache from_hash parse_int Dict.lookup Dict.insert
refreshes = refl

spawn_delivers_once_example :
    (cs : List Command) × (spawn 9000 members job dispatcher ≡ some (cs, (choose refreshed).1))
    × Delivered refreshed (fields_of job) cs
spawn_delivers_once_example = spawn_delivers_once 9000 members job dispatcher refreshed refreshes

abbrev message : Message
message = record { msg_id = "1-0"; fields = some (fields_of job); now = 9000; members = members }

message-Readable : Readable message
unfolding read_members from_hash parse_int Dict.lookup Dict.insert
message-Readable = record {
  body = fields_of job;
  written = refl;
  bug_id = job.bug_id;
  named = refl;
  hashes = λ e. cc;
}

-- What a daemon writes when it rejects the task.
abbrev rejection : Message
rejection = record message {
  msg_id = "2-0";
  fields = some (("daemon_id", "d7") ∷ (fields_of job ++ (("reason", "no_slots") ∷ [])));
}

rejection-Readable : Readable rejection
unfolding read_members from_hash parse_int Dict.lookup Dict.insert
rejection-Readable = record {
  body = ("daemon_id", "d7") ∷ (fields_of job ++ (("reason", "no_slots") ∷ []));
  written = refl;
  bug_id = job.bug_id;
  named = refl;
  hashes = λ e. cc;
}

abbrev dead_inbox : InboxAnswer
dead_inbox = record { pending_count = some 2; entries = message ∷ message ∷ [] }

abbrev dead_daemons : List DaemonAnswer
dead_daemons = record { daemon_id = "gone"; exists = false; inbox_answer = dead_inbox } ∷ []

abbrev waiting : StreamAnswer
waiting = record { claimed = []; fresh = message ∷ [] }

abbrev refused : StreamAnswer
refused = record { claimed = []; fresh = rejection ∷ [] }

tick_lem_example :
    (rs : List Request) × (d' : Dispatcher) × (tick dead_daemons waiting refused dispatcher
      ≡ some (rs, d'))
    × (readded rs
        ≡ found dead_daemons
          ++ ((bodies waiting.claimed ++ bodies waiting.fresh)
              ++ (bodies refused.claimed ++ bodies refused.fresh)))
tick_lem_example =
    tick_lem dead_daemons waiting refused dispatcher
      ((message-Readable, (message-Readable, tt)), tt) tt (message-Readable, tt) tt
      (rejection-Readable, tt)
