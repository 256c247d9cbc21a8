-- ===== src/Worker/Ledger.antt =====
-- bf_worker/agents/mini_resume_env.py: `ResumableDockerEnvironment`, whose container keeps a ledger of
-- its commands, a slot for each number. `effect` is the run of a command in the container: what it does
-- to the files, and its output. A command that was launched ends, before the wait for it does. While the
-- worker lives, the calls of `docker exec` go through, but for the first probe of `execute_if`. The
-- commands of a message are run as the vendored agent does: in order, up to one whose output ends the run
-- (`finished`). `none` is `LedgerMismatch`.
pub mod Directories
pub mod Commands
pub mod Kills
pub mod Crashes
use dev_harness.Base.{
  ℕ, zero, suc, Bool, true, false, not, Option, none, some, List, [], ◌∷◌, if◌then◌else◌, ◌>>=◌,
  take,
}
use dev_harness.Base.Text.{Text, text_eq}
use dev_harness.Worker.Ledger.Directories.{Slots, get, put, clear}

-- A slot: the command, and its output if it was launched.
pub record Slot (O : Type 0) : Type 0 where
  pub command : Text
  pub outcome : Option O

pub record Container (C O : Type 0) : Type 0 where
  pub testbed : C
  pub slots : Slots (Slot O)

-- What came through of the first call of `_issue`, whose script is `rm -rf`, `mkdir -p` and a `cat` of its
-- standard input, when the worker died: nothing, the removal of the slot, the slot with the first
-- characters of the command, or all of it. The script that launches a command goes on in the container
-- when the worker dies.
pub data Cut : Type 0 where
  nothing cleared whole : Cut
  part : ℕ → Cut

module _ {C O : Type 0} where
  -- `_probe`
  unfoldable pub probe : ℕ → Container C O → Option (Slot O)
  probe seq w = get seq w.slots

  -- The first call of `_issue`, when all of its input came through.
  unfoldable pub write_cmd : ℕ → Text → Container C O → Container C O
  write_cmd seq command w = record w {
    slots = put seq (record { command = command; outcome = none }) w.slots;
  }

  -- The container after the death of a worker cut `_issue` off.
  unfoldable pub cut_off : Cut → ℕ → Text → Container C O → Container C O
  unfolding write_cmd clear
  cut_off nothing seq command w = w
  cut_off cleared seq command w = record w { slots = clear seq w.slots }
  cut_off (part n) seq command w = write_cmd seq (take n command) w
  cut_off whole seq command w = write_cmd seq command w

  -- `_wait` and `_harvest`
  unfoldable pub harvest : ℕ → Container C O → Option (O × Container C O)
  unfolding probe
  harvest seq w = elim (probe seq w) [
    | none ↦ none
    | some slot ↦ elim slot.outcome [ none ↦ none | some o ↦ some (o, w) ]
  ]

module _ {O : Type 0} where
  -- The slot is empty, or its command was not launched.
  unfoldable pub needs_issue : Text → Option (Slot O) → Bool
  needs_issue command none = true
  needs_issue command (some slot) =
      if text_eq slot.command command
      then elim slot.outcome [ none ↦ true | some o ↦ false ]
      else false

abbrev pub prepend : {C O : Type 0} → O → Option (List O × C) → Option (List O × C)
prepend o none = none
prepend o (some (os, w)) = some (o ∷ os, w)

module _ {C O : Type 0} (effect : Text → C → C × O) where
  -- The second call of `_issue`.
  unfoldable pub launch : ℕ → Container C O → Container C O
  unfolding probe
  launch seq w = elim (probe seq w) [
    | none ↦ w
    | some slot ↦
        let ran = effect slot.command w.testbed in
        record {
          testbed = ran.0;
          slots = put seq (record { command = slot.command; outcome = some ran.1 }) w.slots;
        }
  ]

  unfoldable pub issue : ℕ → Text → Container C O → Container C O
  unfolding write_cmd launch
  issue seq command w = launch seq (write_cmd seq command w)

  -- `execute`, from the counter on; `probed` is what the first probe found.
  unfoldable pub execute_probed :
      ℕ → Text → Option (Slot O) → Container C O → Option (O × Container C O)
  unfolding issue harvest
  execute_probed seq command none w = harvest seq (issue seq command w)
  execute_probed seq command (some slot) w =
      if not (text_eq slot.command command)
      then none
      else elim slot.outcome [ none ↦ harvest seq (issue seq command w) | some o ↦ harvest seq w ]

  -- A probe that `docker exec` does not answer is read as an empty slot.
  unfoldable pub execute_if : Bool → ℕ → Text → Container C O → Option (O × Container C O)
  unfolding execute_probed probe
  execute_if answered seq command w =
      execute_probed seq command (if answered then probe seq w else none) w

  -- `execute`, where the probe is answered.
  unfoldable pub execute : ℕ → Text → Container C O → Option (O × Container C O)
  unfolding execute_if
  execute seq command w = execute_if true seq command w

  module _ (finished : O → Bool) where
    -- The commands of a message, from the number `seq` on.
    unfoldable pub execute_actions : ℕ → List Text → Container C O → Option (List O × Container C O)
    unfolding execute
    execute_actions seq [] w = some ([], w)
    execute_actions seq (command ∷ commands) w = do
      ran ← execute seq command w
      if finished ran.0
          then some (ran.0 ∷ [], ran.1)
          else prepend ran.0 (execute_actions (suc seq) commands ran.1)

    -- What goes on after a command.
    unfoldable pub and_then :
        (Container C O → Container C O) → Container C O → Option (O × Container C O) → Container C O
    and_then rest w none = w
    and_then rest w (some ran) = if finished ran.0 then ran.1 else rest ran.1

    -- The container after the worker died within the same commands: it issued `issued` of them, and
    -- `cut` is what came through of the next one.
    unfoldable pub killed : Cut → ℕ → ℕ → List Text → Container C O → Container C O
    unfolding execute and_then needs_issue cut_off probe
    killed cut issued seq [] w = w
    killed cut zero seq (command ∷ commands) w =
        if needs_issue command (probe seq w)
        then cut_off cut seq command w
        else and_then (killed cut zero (suc seq) commands) w (execute seq command w)
    killed cut (suc issued) seq (command ∷ commands) w =
        if needs_issue command (probe seq w)
        then and_then (killed cut issued (suc seq) commands) w (execute seq command w)
        else and_then (killed cut (suc issued) (suc seq) commands) w (execute seq command w)
