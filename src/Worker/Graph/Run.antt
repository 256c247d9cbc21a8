-- ===== src/Worker/Graph/Run.antt =====
-- Runs of the graph of bf_worker/graph/builder.py: a node is visited, its update is merged into the
-- state, and its edge gives the next node. The fuel bounds the visits (Termination says how many are
-- enough); the world of each visit is arbitrary.
mod Room
pub mod Termination
pub mod Invariants
pub mod Shipping
pub mod Counters
use dev_harness.Base.{ℕ, zero, suc, Option, none, some}
use dev_harness.Worker.Budget.{new_budget}
use dev_harness.Worker.Graph.State.{initial_state}
use dev_harness.Worker.Graph.Builder.{Node, to, end, next}
use dev_harness.Worker.Graph.World.{Run, Settings, World}
use dev_harness.Worker.Graph.Nodes.{visit}

-- A run of workflow `ver` with the default budget and an optional cost cap, begun at `now`.
abbrev pub start : ℕ → Option ℕ → ℕ → Run
start ver cap now = record { state = initial_state ver; budget = new_budget cap now }

-- How `graph.invoke` ends: after a last node, or by an exception of a node.
pub data Outcome : Type 0 where
  finished : Node → Run → Outcome
  raised : Node → Outcome
  out_of_fuel : Outcome

unfoldable pub invoke : ℕ → Settings → (ℕ → World) → ℕ → Node → Run → Outcome
invoke zero st worlds i node r = out_of_fuel
invoke (suc fuel) st worlds i node r = elim (visit st (worlds i) node r) [
  | none ↦ raised node
  | some r' ↦ elim (next st.via_gateway node r'.state) [
    | none ↦ raised node
    | some end ↦ finished node r'
    | some (to node') ↦ invoke fuel st worlds (suc i) node' r'
  ]
]
