-- ===== src/Worker/DaemonTests.antt =====
-- Runs of the daemon on a few tasks.
use dev_harness.Base.{◌≡◌, refl, ◌≤◌, some, [], ◌∷◌, String, length}
use dev_harness.Base.Dict
use dev_harness.Base.Dict.{Dict, Unique}
use dev_harness.Worker.Daemon.{
  Daemon, with_process, take_message, accept, can_accept, free_slots, reap, set_owner, xack,
}
use dev_harness.Worker.Daemon.Slots.{
  New, Steps, message, exit, stay, go, slots_bound, workers_bound,
}

abbrev idle : Daemon
idle = record {
  daemon_id = "A";
  concurrency = 2;
  min_free_memory_bytes = 10;
  active = [];
  waiting = [];
}

abbrev task : String → Dict String
task bug_id = ("bug_id", bug_id) ∷ []

abbrev one_worker : Daemon
one_worker = with_process "BUG-1" 7 idle

accepted :
    take_message 20 (some 7) "1-0" (task "BUG-1") idle
    ≡ some (set_owner "BUG-1" ∷ xack "1-0" ∷ [], one_worker)
unfolding take_message accept can_accept free_slots Dict.lookup
accepted = refl

run : Steps New idle idle
unfolding Dict.lookup Dict.insert
run =
    go one_worker idle
      (go idle one_worker (stay idle refl) (
        message 20 (some 7) "1-0" (task "BUG-1") (set_owner "BUG-1" ∷ xack "1-0" ∷ [])
          (λ bug_id named. refl) accepted))
      (exit "BUG-1" 7 [] [] refl (unfold reap Dict.erase in refl))

workers_bound_example :
    (idle.active ≡ idle.waiting) × Unique idle.active × (length idle.waiting ≤ 2)
workers_bound_example = workers_bound idle idle (refl, refl) run

slots_bound_example : (idle.concurrency ≡ 2) × (length idle.active ≤ 2)
slots_bound_example = slots_bound New idle idle (refl, refl) run

-- A bug that comes again takes the slot of its first worker, so that three workers run.
abbrev overrun_state : Daemon
overrun_state = with_process "BUG-2" 9 (with_process "BUG-1" 8 one_worker)

overrun :
    take_message 20 (some 9) "3-0" (task "BUG-2") (with_process "BUG-1" 8 one_worker)
    ≡ some (set_owner "BUG-2" ∷ xack "3-0" ∷ [], overrun_state)
unfolding take_message accept can_accept free_slots Dict.insert Dict.lookup
overrun = refl
