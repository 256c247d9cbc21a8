-- ===== src/Worker/Tests.antt =====
-- Concrete runs of the worker: the theorems at inputs where their conditions hold.
use dev_harness.Base.{◌≡◌, ◌≢◌, refl, ◌⊎◌, true, false, none, some, [], ◌∷◌, pos, eq_iff}
use dev_harness.Worker.Budget.{Reason, RunBudget, new_budget, check, record_call}
use dev_harness.Worker.Budget.Caps.{Charge, CapReached, check_iff_reached}
use dev_harness.Worker.Graph.State.{LlmResult, initial_state, clean}
use dev_harness.Worker.Graph.Routing.{
  route_after_precheck, route_after_fetch_trace, route_after_parse_trace, route_after_react_loop,
  route_after_create_fix_branch, route_after_apply_and_test, route_after_code_review,
  route_after_ci,
}
use dev_harness.Worker.Graph.Builder.{
  entry_point, code_review, commit_change, create_mr, handle_failure, to, next,
}
use dev_harness.Worker.Graph.ReactLoop.{Reply, submit_fix, react_steps}
use dev_harness.Worker.Graph.World.{
  Run, Settings, CodeReviewConfig, World, mini_failed, branch_ready, tested,
}
use dev_harness.Worker.Graph.Nodes.{visit, visit_code_review}
use dev_harness.Worker.Graph.Run.{start, finished, out_of_fuel, invoke}
use dev_harness.Worker.Graph.Run.Termination.{run_ends}
use dev_harness.Worker.Graph.Run.Shipping.{mr_needs_green, ends_accounted_for}
use dev_harness.Worker.Graph.Run.Counters.{Bounded, retries_capped, shadow_review_ships}

abbrev one_fix : LlmResult
one_fix = record { can_fix = true; fixes = record { file_path = some "app.py" } ∷ [] }

abbrev submission : Reply
submission = record {
  check_at = 1000;
  failed = false;
  input = pos 900;
  output = pos 80;
  cost = none;
  action = submit_fix one_fix.fixes;
}

-- Everything goes well.
abbrev good_day : World
good_day = record {
  merged_mr = false;
  trace_fetched = true;
  parsed = some (some "app.py");
  source_readable = true;
  mini = mini_failed;
  replies = λ step. submission;
  repo_ready = true;
  branch = branch_ready "fix/7" false;
  patch_applies = true;
  applied = tested true;
  post_mortem = none;
  review_at = 2000;
  readable = λ path. true;
  inspection = some (record { error = false; findings = [] });
  committed = true;
  ci = some (some "success");
  mr_created = true;
}

abbrev shadow : CodeReviewConfig
shadow = record { enabled = true; mode = "shadow"; max_rounds = 1 }

abbrev direct : Settings
direct = record { via_gateway = false; review = some shadow }

abbrev shipped : Run
shipped = record {
  state = record (initial_state 1) {
    suspect_file_path = "app.py";
    llm_result = some one_fix;
    fix_branch_name = some "fix/7";
    test_passed = some true;
    code_review_status = some clean;
    ci_status = some "success";
  };
  budget = record (new_budget none 0) { calls = 2; input_tokens = 900; output_tokens = 80 };
}

good_day_ships :
    invoke 11 direct (λ i. good_day) 0 entry_point (start 1 none 0) ≡ finished create_mr shipped
unfolding invoke visit next react_steps check record_call visit_code_review route_after_precheck
    route_after_fetch_trace route_after_parse_trace route_after_react_loop
    route_after_create_fix_branch route_after_apply_and_test route_after_code_review route_after_ci
good_day_ships = refl

run_ends_example : invoke 169 direct (λ i. good_day) 0 entry_point (start 1 none 0) ≢ out_of_fuel
run_ends_example = run_ends 1 none 0 direct (λ i. good_day)

mr_needs_green_example :
    (shipped.state.test_passed ≡ some true) × (shipped.state.ci_status ≡ some "success")
mr_needs_green_example = mr_needs_green 1 none 0 11 direct (λ i. good_day) shipped good_day_ships

ends_accounted_for_example :
    (create_mr ≡ create_mr) ⊎ (create_mr ≡ handle_failure) ⊎ (shipped.state.already_fixed ≡ true)
ends_accounted_for_example =
    ends_accounted_for 1 none 0 11 direct (λ i. good_day) create_mr shipped good_day_ships

retries_capped_example : Bounded direct 2 2 shipped
retries_capped_example =
    retries_capped 1 none 0 11 direct (λ i. good_day) create_mr shipped good_day_ships

shadow_not_acting : shadow.mode ≢ "acting"
shadow_not_acting e = let bad : false ≡ true = (eq_iff "shadow" "acting").1 e in cc

shadow_review_ships_example :
    next false code_review (visit_code_review (some shadow) good_day (start 1 none 0)).state
    ≡ some (to commit_change)
shadow_review_ships_example =
    shadow_review_ships false shadow good_day (start 1 none 0) refl shadow_not_acting

check_iff_reached_example :
    ((r : Reason)
      → (check 5000 (new_budget (some 10) 0)).1 ≡ some r
      → CapReached 5000 (new_budget (some 10) 0))
    × (CapReached 5000 (new_budget (some 10) 0) → (check 5000 (new_budget (some 10) 0)).1 ≢ none)
check_iff_reached_example = check_iff_reached 5000 (new_budget (some 10) 0) refl

abbrev spent : RunBudget
spent = record (new_budget none 0) { calls = 30 }

abbrev late_charge : Charge
late_charge = record { input = pos 5; output = pos 6; cost = some (pos 7) }
