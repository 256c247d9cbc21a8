-- ===== src/Worker/ResumeTests.antt =====
-- Workers that die within the commands of a message, and the agent that goes on.
use dev_harness.Base.{ℕ, ◌≡◌, refl, Bool, false, true, some, none, List, [], ◌∷◌, ◌++◌, length}
use dev_harness.Base.Text.{Text, codes}
use dev_harness.Worker.Ledger.{
  Container, nothing, part, whole, execute_actions, execute, execute_if, execute_probed, killed,
  cut_off, write_cmd, probe, needs_issue,
}
use dev_harness.Worker.Ledger.Directories.{put, get, clear}
use dev_harness.Worker.Ledger.Crashes.{Death}
use dev_harness.Worker.Resume.{
  clean, counted, boundary_record, checkpoint, Agent, goes_on, resume, step,
}
use dev_harness.Worker.Resume.Boundaries.{boundary_comes_back}
use dev_harness.Worker.Resume.Steps.{view}

-- A command appends its name to the files, and prints how many ran before.
abbrev effect : Text → List Text → List Text × ℕ
effect command files = (files ++ (command ∷ []), length files)

abbrev goes : ℕ → Bool
goes o = false

abbrev before : Container (List Text) ℕ
before = record { testbed = []; slots = [] }

abbrev two_commands : Text → List Text
two_commands m = codes "make" ∷ codes "test" ∷ []

abbrev observed : Text → List ℕ → List Text
observed m outputs = codes "done" ∷ []

-- The first worker dies before it writes the second command, and the next one before it launches that.
abbrev deaths : List Death
deaths =
    record { issued_before = 1; cut = nothing } ∷ record { issued_before = 0; cut = whole } ∷ []

-- A command that came through in part is taken for another one.
torn_is_refused :
    execute_actions effect goes 1
      (two_commands [])
      (killed effect goes (part 2) 0 1 (two_commands []) before)
    ≡ none
unfolding execute_actions execute execute_if execute_probed killed cut_off write_cmd probe
    needs_issue put get clear
torn_is_refused = refl

abbrev asked_once : Agent Text
asked_once = record {
  fingerprint = codes "run";
  messages = codes "task" ∷ codes "answer" ∷ [];
  n_calls = 1;
  cost = 5;
  step = 0;
  message_count = 1;
  resume_count = 0;
  replayed_commands = 0;
  resumed_from_step = none;
  pending = none;
  seq = 0;
}

abbrev fresh : Agent Text
fresh = record asked_once { messages = codes "task" ∷ []; n_calls = 0; cost = 0 }

-- The agent between two steps.
abbrev observed_once : Agent Text
observed_once = record asked_once {
  messages = codes "task" ∷ codes "answer" ∷ codes "done" ∷ [];
  seq = 2;
}

boundary_comes_back_example :
    (b' : Agent Text) × (resume
        (some true)
        (λ n. (clean, 0))
        (some (boundary_record false observed_once))
        fresh
      ≡ goes_on b')
    × (view b' ≡ view (counted observed_once))
    × (b'.pending ≡ none)
boundary_comes_back_example =
    boundary_comes_back (λ m. false) (λ m. false) observed_once (some true) (λ n. (clean, 0))
      (counted observed_once) fresh (boundary_record false observed_once)
      (unfold checkpoint in refl) (unfold boundary_record in refl) refl refl
