-- ===== src/Worker/Graph/Builder.antt =====
-- bf_worker/graph/builder.py: the nodes and the edges of the graph.
pub mod Diagram
use dev_harness.Base.{Bool, Option, some, [], ◌∷◌, String}
use dev_harness.Base.Dict
use dev_harness.Base.Dict.{Dict}
use dev_harness.Worker.Graph.State.{BugFixState}
use dev_harness.Worker.Graph.Routing.{
  route_after_precheck, route_after_fetch_trace, route_after_mini_react_loop,
  route_after_parse_trace, route_after_react_loop, route_after_create_fix_branch,
  route_after_apply_and_test, route_after_code_review, route_after_ci,
}

pub data Node : Type 0 where
  precheck_already_fixed fetch_trace parse_trace fetch_source_file react_loop : Node
  mini_react_loop create_fix_branch apply_change_and_test code_review : Node
  commit_change wait_ci_result create_mr handle_failure : Node

-- Where an edge leads: a node, or END.
pub data Target : Type 0 where
  to : Node → Target
  end : Target

-- `add_edge`, or `add_conditional_edges` with its router and its map from labels.
pub data Edge : Type 0 where
  always : Target → Edge
  branch : (BugFixState → String) → Dict Target → Edge

abbrev pub entry_point : Node
entry_point = precheck_already_fixed

-- `build_graph`: the edge that leaves each node.
unfoldable pub edge : Bool → Node → Edge
edge via_gateway fetch_source_file = always (to react_loop)
edge via_gateway commit_change = always (to wait_ci_result)
edge via_gateway create_mr = always end
edge via_gateway handle_failure = always end
edge via_gateway precheck_already_fixed =
    branch route_after_precheck (("fetch_trace", to fetch_trace) ∷ ("already_fixed", end) ∷ [])
edge via_gateway fetch_trace =
    branch route_after_fetch_trace
      (("parse_trace", to parse_trace) ∷ ("mini_react_loop", to mini_react_loop) ∷ [])
edge via_gateway mini_react_loop =
    branch route_after_mini_react_loop
      (("create_fix_branch", to create_fix_branch) ∷ ("handle_failure", to handle_failure) ∷ [])
edge via_gateway parse_trace =
    branch route_after_parse_trace
      (("fetch_source_file", to fetch_source_file) ∷ ("react_loop", to react_loop) ∷ [])
edge via_gateway react_loop = branch (route_after_react_loop via_gateway) (
    ("create_fix_branch", to create_fix_branch)
    ∷ ("apply_change_and_test", to apply_change_and_test)
    ∷ ("react_loop", to react_loop)
    ∷ ("handle_failure", to handle_failure)
    ∷ [])
edge via_gateway create_fix_branch =
    branch route_after_create_fix_branch
      (("apply_change_and_test", to apply_change_and_test) ∷ ("already_fixed", end) ∷ [])
edge via_gateway apply_change_and_test = branch route_after_apply_and_test (
    ("code_review", to code_review)
    ∷ ("react_loop", to react_loop)
    ∷ ("handle_failure", to handle_failure)
    ∷ [])
edge via_gateway code_review =
    branch route_after_code_review
      (("react_loop", to react_loop) ∷ ("commit_change", to commit_change) ∷ [])
edge via_gateway wait_ci_result =
    branch route_after_ci (("create_mr", to create_mr) ∷ ("handle_failure", to handle_failure) ∷ [])

-- What LangGraph does at an edge; `none` stands for its error on a label that the map lacks.
follow : Edge → BugFixState → Option Target
follow (always t) s = some t
follow (branch route targets) s = Dict.lookup (route s) targets

unfoldable pub next : Bool → Node → BugFixState → Option Target
unfolding edge follow Dict.lookup
next via_gateway node s = follow (edge via_gateway node) s
