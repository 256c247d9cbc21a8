-- ===== src/Worker/Graph/Run/Room.antt =====
-- How the nodes of bf_worker/graph spend the calls that the run budget still has.
use dev_harness.Base.{ℕ, zero, suc, ◌+◌, ◌-◌, ◌≤◌, ◌≡◌, Option, none, some, ℤ, arith}
use dev_harness.Worker.Budget.{RunBudget, check, record_call}
use dev_harness.Worker.Budget.Caps.{check-none_room}
use dev_harness.Worker.Graph.State.{LlmResult}
use dev_harness.Worker.Graph.ReactLoop.{Reply, react_steps}

abbrev pub room : RunBudget → ℕ
room b = b.max_calls - b.calls

pub room-check : (now : ℕ) (b : RunBudget) → room (check now b).0 ≡ room b
unfolding check
room-check now b = ground arith

pub room-record_call :
    (input output : ℤ) (cost : Option ℤ) (b : RunBudget)
    → room (record_call input output cost b) ≡ room b - 1
unfolding record_call
room-record_call input output cost b = omega arith

-- A passed check and one call use up one unit.
room-charged :
    (now : ℕ) (input output : ℤ) (cost : Option ℤ) (b : RunBudget)
    → (check now b).1 ≡ none
    → room (record_call input output cost (check now b).0) + 1 ≡ room b
room-charged now input output cost b h = omega (
  arith,
  room-record_call input output cost (check now b).0,
  room-check now b,
  (check-none_room now b h).0,
)

abbrev spent : Option LlmResult → ℕ
spent none = 0
spent (some result) = 1

-- The loop of react_loop never gains room, and a result costs at least one call.
pub react_steps-room :
    (left : ℕ) (replies : ℕ → Reply) (step : ℕ) (b b' : RunBudget) (result : Option LlmResult)
    → react_steps left replies step b ≡ some (b', result)
    → room b' + spent result ≤ room b
unfolding react_steps
react_steps-room zero replies step b b' result h = ground arith
react_steps-room (suc left) replies step b b' result h =
    let reply = replies step in
    let charged = record_call reply.input reply.output reply.cost (check reply.check_at b).0 in
    ground (
      arith,
      room-check reply.check_at b,
      room-charged reply.check_at reply.input reply.output reply.cost b,
      react_steps-room left replies (suc step) charged b' result,
    )
