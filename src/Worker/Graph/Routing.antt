-- ===== src/Worker/Graph/Routing.antt =====
-- bf_worker/graph/routing.py: the functions on the conditional edges. Each returns a label.
use dev_harness.Base.{
  ℕ, Bool, true, false, ◌&&◌, Option, none, some, String, str_eq, ltb, leb, ◌==◌, is_some,
  if◌then◌else◌,
}
use dev_harness.Worker.Graph.State.{BugFixState, ReviewStatus, escalated, truthy, truthy?, is_true}

abbrev pub max_fix_retries : ℕ
max_fix_retries = 2

abbrev pub no_fix_max_retries : ℕ
no_fix_max_retries = 1

unfoldable pub route_after_precheck : BugFixState → String
route_after_precheck s = if s.already_fixed then "already_fixed" else "fetch_trace"

unfoldable pub route_after_fetch_trace : BugFixState → String
route_after_fetch_trace s = if s.workflow_ver == 99 then "mini_react_loop" else "parse_trace"

unfoldable pub route_after_mini_react_loop : BugFixState → String
route_after_mini_react_loop s =
    if truthy? s.model_patch then "create_fix_branch" else "handle_failure"

unfoldable pub route_after_parse_trace : BugFixState → String
route_after_parse_trace s = if truthy s.suspect_file_path then "fetch_source_file" else "react_loop"

-- `via_gateway` is `cfg.llm_via_gateway`.
unfoldable pub route_after_react_loop : Bool → BugFixState → String
route_after_react_loop via_gateway s =
    if is_some s.llm_result
    then (if truthy? s.fix_branch_name then "apply_change_and_test" else "create_fix_branch")
    else if via_gateway && leb s.no_fix_retry_count no_fix_max_retries
    then "react_loop"
    else "handle_failure"

unfoldable pub route_after_create_fix_branch : BugFixState → String
route_after_create_fix_branch s =
    if s.already_fixed then "already_fixed" else "apply_change_and_test"

unfoldable pub route_after_apply_and_test : BugFixState → String
route_after_apply_and_test s =
    if is_true s.test_passed
    then "code_review"
    else if s.workflow_ver == 99
    then "handle_failure"
    else if ltb s.fix_retry_count max_fix_retries
    then "react_loop"
    else "handle_failure"

abbrev pub is_escalated : Option ReviewStatus → Bool
is_escalated (some escalated) = true
is_escalated _ = false

unfoldable pub route_after_code_review : BugFixState → String
route_after_code_review s =
    if is_escalated s.code_review_status then "react_loop" else "commit_change"

unfoldable pub route_after_ci : BugFixState → String
route_after_ci s = elim s.ci_status [
  | some status ↦ if str_eq status "success" then "create_mr" else "handle_failure"
  | none ↦ "handle_failure"
]
