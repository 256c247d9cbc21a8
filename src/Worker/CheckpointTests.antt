-- ===== src/Worker/CheckpointTests.antt =====
-- Runs of the store of checkpoints.
use dev_harness.Base.{◌≡◌, refl, none, [], ◌∷◌, List, arith}
use dev_harness.Base.Json.{number}
use dev_harness.Base.Text.{Text, codes}
use dev_harness.Worker.StepCheckpoint.{Document, found, payload, load, save, sanitise, safe}
use dev_harness.Worker.StepCheckpoint.Documents.{load-save}
use dev_harness.Worker.StepCheckpoint.Runs.{
  Command, save_at, load_at, purge, answers, promised, empty, answers-promised,
}

abbrev digest : Text → Text
digest s = codes "deadbeef"

abbrev step : Document
step = ("step", number 3) ∷ []

load-save_example :
    load digest
      (λ s. none)
      100
      60
      (codes "a/b")
      (codes "env")
      (save digest 10 (codes "a/b") (codes "env") step [])
    ≡ (found (payload step 10), save digest 10 (codes "a/b") (codes "env") step [])
load-save_example = load-save digest (λ s. none) 100 60 10 (codes "a/b") step (codes "env") [] refl

abbrev calls : List Command
calls =
    save_at 10 (codes "BUG-1") (codes "env") step
    ∷ save_at 20 (codes "BUG-2") (codes "env") step
    ∷ load_at 60 (codes "BUG-1") (codes "env")
    ∷ purge (codes "BUG-2")
    ∷ load_at 70 (codes "BUG-2") (codes "env")
    ∷ []

answers-promised_example : answers digest (λ s. none) 100 calls [] ≡ promised 100 calls empty
unfolding sanitise
answers-promised_example =
    answers-promised digest (λ s. none) 100 calls
      (
        ((refl, omega arith, λ e. cc, λ e. cc, λ e. cc), (refl, omega arith)),
        (
          ((refl, omega arith, λ e. cc, λ e. cc, λ e. cc), (refl, omega arith)),
          (
            ((refl, omega arith, λ e. cc, λ e. cc, λ e. cc), (refl, omega arith)),
            (
              (refl, omega arith, λ e. cc, λ e. cc, λ e. cc),
              (((refl, omega arith, λ e. cc, λ e. cc, λ e. cc), (refl, omega arith)), tt),
            ),
          ),
        ),
      )

-- Two keys, one directory.
keys_collide : safe digest (codes "a/b") ≡ safe digest (codes "a_b-deadbeef")
unfolding safe sanitise
keys_collide = refl
