-- ===== src/Orchestrator/StreamTests.antt =====
-- Concrete streams: the theorems at inputs where their conditions hold.
use dev_harness.Base.{ℕ, zero, suc, ◌≡◌, refl, true, Option, none, some, [], ◌∷◌}
use dev_harness.Orchestrator.Router.{Delivery}
use dev_harness.Orchestrator.Consumer.{Entry, Handling, Batch, consume_rounds, run}
use dev_harness.Orchestrator.Consumer.Acks.{
  accounted, Recoverable, AllSettled, entries_read, run_acks_safely, every_entry_settled,
}

abbrev entry : Entry
entry = record { id = "5-0"; body = "{}" }

abbrev fine : Handling
fine = record { handler_error = none; ack_error = none; dead_lettered = true; dead_acked = true }

abbrev broken : Handling
broken = record fine { handler_error = some "no key" }

abbrev batch : Batch
batch = (entry, fine) ∷ (record entry { id = "6-0" }, broken) ∷ []

abbrev drained : ℕ → Option Batch
drained zero = some batch
drained (suc i) = some []

run_acks_safely_example : accounted [] (run drained (none ∷ some batch ∷ [])) ≡ true
run_acks_safely_example = run_acks_safely drained (none ∷ some batch ∷ [])

every_entry_settled_example :
    AllSettled (entries_read (some batch ∷ none ∷ [])) (consume_rounds (some batch ∷ none ∷ []))
unfolding Recoverable
every_entry_settled_example =
    every_entry_settled (some batch ∷ none ∷ []) ((refl, (refl, tt)), (tt, tt))

abbrev verdict : Delivery
verdict = record { bug_id = "BUG-1"; raw = "{}" }
