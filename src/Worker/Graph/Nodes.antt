-- ===== src/Worker/Graph/Nodes.antt =====
-- bf_worker/graph/nodes: what each node does to the state and the budget. What the provider, the
-- model, the shell and the inspector answer during a visit is the argument `World`; `none` as a
-- result is an exception that leaves the node, which ends the run.
mod Apply
mod Review
use dev_harness.Base.{
  ℕ, ◌+◌, Bool, true, false, not, Option, none, some, [], String, is_some, if◌then◌else◌,
}
use dev_harness.Worker.Graph.State.{BugFixState, LlmResult, truthy, truthy?}
use dev_harness.Worker.Graph.Builder.{
  Node, precheck_already_fixed, fetch_trace, parse_trace, fetch_source_file, react_loop,
  mini_react_loop, create_fix_branch, apply_change_and_test, code_review, commit_change,
  wait_ci_result, create_mr, handle_failure,
}
use dev_harness.Worker.Graph.ReactLoop.{react_steps, max_steps}
use dev_harness.Worker.Graph.World.{
  Run, Settings, World, MiniOutcome, mini_failed, mini_patch, BranchOutcome, branch_failed,
  branch_ready,
}
unfoldable pub use Apply.{visit_apply}
unfoldable pub use Review.{visit_code_review}

abbrev with_state : Run → BugFixState → Run
with_state r s = record r { state = s }

abbrev unless : Bool → Run → Option Run
unless ok r = if ok then some r else none

abbrev visit_precheck : World → Run → Option Run
visit_precheck w r =
    some (if w.merged_mr then with_state r (record r.state { already_fixed = true }) else r)

abbrev visit_fetch_trace : World → Run → Option Run
visit_fetch_trace w r = unless w.trace_fetched r

-- A read that fails is only noted.
abbrev visit_fetch_source : World → Run → Option Run
visit_fetch_source w r =
    some (with_state r (record r.state { source_fetch_failed = not w.source_readable }))

abbrev visit_commit : World → Run → Option Run
visit_commit w r = unless w.committed r

abbrev visit_create_mr : World → Run → Option Run
visit_create_mr w r = unless w.mr_created r

abbrev visit_handle_failure : Run → Option Run
visit_handle_failure r = some r

visit_parse_trace : Option (Option String) → Run → Option Run
visit_parse_trace none r = none
visit_parse_trace (some none) r = some (with_state r (record r.state { suspect_file_path = "" }))
visit_parse_trace (some (some p)) r = some (with_state r (record r.state { suspect_file_path = p }))

-- An empty patch is stored as None; the marker `can_fix` is set on both.
visit_mini : MiniOutcome → Run → Run
visit_mini mini_failed r = with_state r (record r.state { model_patch = none })
visit_mini (mini_patch p) r = with_state r (record r.state {
  model_patch = if truthy p then some p else none;
  llm_result = some (record { can_fix = truthy p; fixes = [] });
})

-- A no-fix exit counts; the verdict of an earlier cycle is cleared.
visit_react_loop : World → Run → Option Run
visit_react_loop w r = elim (react_steps max_steps w.replies 0 r.budget) [
  | none ↦ none
  | some (b, result) ↦ some (record {
    state = record r.state {
      llm_result = result;
      no_fix_retry_count =
          if is_some result then r.state.no_fix_retry_count else r.state.no_fix_retry_count + 1;
      test_passed = none;
    };
    budget = b;
  })
]

new_branch : BranchOutcome → Run → Option Run
new_branch branch_failed r = none
new_branch (branch_ready name merged) r = some (
    with_state r (record r.state {
      fix_branch_name = some name;
      already_fixed = if merged then true else r.state.already_fixed;
    }))

-- A branch that the state already names is only checked out again.
visit_create_fix_branch : World → Run → Option Run
unfolding new_branch
visit_create_fix_branch w r =
    if w.repo_ready
    then (if truthy? r.state.fix_branch_name then some r else new_branch w.branch r)
    else none

abbrev ci_text : Option String → String
ci_text none = "timeout"
ci_text (some status) = status

visit_ci : Option (Option String) → Run → Option Run
visit_ci none r = none
visit_ci (some status) r =
    some (with_state r (record r.state { ci_status = some (ci_text status) }))

unfoldable pub visit : Settings → World → Node → Run → Option Run
unfolding visit_parse_trace visit_mini visit_react_loop visit_create_fix_branch visit_ci visit_apply
    visit_code_review
visit st w precheck_already_fixed r = visit_precheck w r
visit st w fetch_trace r = visit_fetch_trace w r
visit st w parse_trace r = visit_parse_trace w.parsed r
visit st w fetch_source_file r = visit_fetch_source w r
visit st w react_loop r = visit_react_loop w r
visit st w mini_react_loop r = some (visit_mini w.mini r)
visit st w create_fix_branch r = visit_create_fix_branch w r
visit st w apply_change_and_test r = visit_apply w r
visit st w code_review r = some (visit_code_review st.review w r)
visit st w commit_change r = visit_commit w r
visit st w wait_ci_result r = visit_ci w.ci r
visit st w create_mr r = visit_create_mr w r
visit st w handle_failure r = visit_handle_failure r
