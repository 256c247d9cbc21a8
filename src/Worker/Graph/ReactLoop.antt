-- ===== src/Worker/Graph/ReactLoop.antt =====
-- bf_worker/graph/nodes/react_loop.py: the loop of model calls inside one node visit. What the model
-- and the clock answer at each step is a `Reply`; the messages that go back to the model, the tool
-- results and the telemetry are left out, since no branch of the loop reads them.
use dev_harness.Base.{ℕ, zero, suc, Bool, true, false, Option, none, some, List, [], ◌∷◌, ℤ}
use dev_harness.Worker.Budget.{RunBudget, check, record_call}
use dev_harness.Worker.Graph.State.{FixEntry, LlmResult}

-- The first tool call of an assistant message.
pub data Action : Type 0 where
  no_tool_call abort_fix fetch : Action
  submit_fix : List FixEntry → Action

-- One step: the clock at the budget check, whether the call raised (after its own retries), the
-- tokens and the cost that it reports, and what the model asks for.
pub record Reply : Type 0 where
  pub check_at : ℕ
  pub failed : Bool
  pub input : ℤ
  pub output : ℤ
  pub cost : Option ℤ
  pub action : Action

abbrev pub max_steps : ℕ
max_steps = 8

-- How a step leaves the loop, if it does: `break` with a result or without.
pub data Exit : Type 0 where
  go_on : Exit
  leave : Option LlmResult → Exit

abbrev pub exit_of : Action → Exit
exit_of no_tool_call = go_on
exit_of fetch = go_on
exit_of abort_fix = leave none
exit_of (submit_fix []) = leave none
exit_of (submit_fix (f ∷ fs)) = leave (some (record { can_fix = true; fixes = f ∷ fs }))

-- The `while` loop with `left` steps to go before MAX_STEPS. `none` is an exception of the model call.
unfoldable pub react_steps : ℕ → (ℕ → Reply) → ℕ → RunBudget → Option (RunBudget × Option LlmResult)
react_steps zero replies step b = some (b, none)
react_steps (suc left) replies step b =
    let reply = replies step in
    let (checked, reason) = check reply.check_at b in
    let charged = record_call reply.input reply.output reply.cost checked in
    elim reason [
      | some r ↦ some (checked, none)
      | none ↦ elim reply.failed [
        | true ↦ none
        | false ↦ elim (exit_of reply.action) [
          | leave result ↦ some (charged, result)
          | go_on ↦ react_steps left replies (suc step) charged
        ]
      ]
    ]
