-- ===== src/Worker/Graph/Builder/Diagram.antt =====
-- The graph of bf_worker/graph/builder.py as a diagram without labels: where each node leads.
use dev_harness.Base.{
  Bool, ◌&&◌, ◌≡◌, refl, ◌⊎◌, inl, inr, Option, some, String, str_eq, ltb, leb, ◌==◌, is_some,
  if◌then◌else◌, Bool-cases, Option-cases, none,
}
use dev_harness.Worker.Graph.State.{BugFixState, truthy, truthy?, is_true}
use dev_harness.Worker.Graph.Routing.{
  max_fix_retries, no_fix_max_retries, is_escalated, route_after_precheck, route_after_fetch_trace,
  route_after_mini_react_loop, route_after_parse_trace, route_after_react_loop,
  route_after_create_fix_branch, route_after_apply_and_test, route_after_code_review,
  route_after_ci,
}
use dev_harness.Worker.Graph.Builder.{
  Node, precheck_already_fixed, fetch_trace, parse_trace, fetch_source_file, react_loop,
  mini_react_loop, create_fix_branch, apply_change_and_test, code_review, commit_change,
  wait_ci_result, create_mr, handle_failure, Target, to, end, next,
}

abbrev pub succeeded : Option String → Bool
succeeded (some status) = str_eq status "success"
succeeded none = Bool.false

abbrev pub target : Bool → Node → BugFixState → Target
target g precheck_already_fixed s = if s.already_fixed then end else to fetch_trace
target g fetch_trace s = if s.workflow_ver == 99 then to mini_react_loop else to parse_trace
target g parse_trace s = if truthy s.suspect_file_path then to fetch_source_file else to react_loop
target g fetch_source_file s = to react_loop
target g react_loop s =
    if is_some s.llm_result
    then (if truthy? s.fix_branch_name then to apply_change_and_test else to create_fix_branch)
    else if g && leb s.no_fix_retry_count no_fix_max_retries
    then to react_loop
    else to handle_failure
target g mini_react_loop s =
    if truthy? s.model_patch then to create_fix_branch else to handle_failure
target g create_fix_branch s = if s.already_fixed then end else to apply_change_and_test
target g apply_change_and_test s =
    if is_true s.test_passed
    then to code_review
    else if s.workflow_ver == 99
    then to handle_failure
    else if ltb s.fix_retry_count max_fix_retries
    then to react_loop
    else to handle_failure
target g code_review s =
    if is_escalated s.code_review_status then to react_loop else to commit_change
target g commit_change s = to wait_ci_result
target g wait_ci_result s = if succeeded s.ci_status then to create_mr else to handle_failure
target g create_mr s = end
target g handle_failure s = end

module _ (g : Bool) (s : BugFixState) where
  next_precheck : next g precheck_already_fixed s ≡ some (target g precheck_already_fixed s)
  unfolding next route_after_precheck
  next_precheck = elim (Bool-cases s.already_fixed) [
    | inl e ↦ rw (e, route_after_precheck)
    | inr e ↦ rw (e, route_after_precheck)
  ]

  next_fetch_trace : next g fetch_trace s ≡ some (target g fetch_trace s)
  unfolding next route_after_fetch_trace
  next_fetch_trace = elim (Bool-cases (s.workflow_ver == 99)) [
    | inl e ↦ rw (e, route_after_fetch_trace)
    | inr e ↦ rw (e, route_after_fetch_trace)
  ]

  next_mini : next g mini_react_loop s ≡ some (target g mini_react_loop s)
  unfolding next route_after_mini_react_loop
  next_mini = elim (Bool-cases (truthy? s.model_patch)) [
    | inl e ↦ rw (e, route_after_mini_react_loop)
    | inr e ↦ rw (e, route_after_mini_react_loop)
  ]

  next_parse_trace : next g parse_trace s ≡ some (target g parse_trace s)
  unfolding next route_after_parse_trace
  next_parse_trace = elim (Bool-cases (truthy s.suspect_file_path)) [
    | inl e ↦ rw (e, route_after_parse_trace)
    | inr e ↦ rw (e, route_after_parse_trace)
  ]

  next_react_loop : next g react_loop s ≡ some (target g react_loop s)
  unfolding next route_after_react_loop
  next_react_loop = elim (Bool-cases (is_some s.llm_result)) [
    | inl e ↦ elim (Bool-cases (truthy? s.fix_branch_name)) [
      | inl e' ↦ rw (e, e', route_after_react_loop)
      | inr e' ↦ rw (e, e', route_after_react_loop)
    ]
    | inr e ↦ elim (Bool-cases (g && leb s.no_fix_retry_count no_fix_max_retries)) [
      | inl e' ↦ rw (e, e', route_after_react_loop)
      | inr e' ↦ rw (e, e', route_after_react_loop)
    ]
  ]

  next_create_fix_branch : next g create_fix_branch s ≡ some (target g create_fix_branch s)
  unfolding next route_after_create_fix_branch
  next_create_fix_branch = elim (Bool-cases s.already_fixed) [
    | inl e ↦ rw (e, route_after_create_fix_branch)
    | inr e ↦ rw (e, route_after_create_fix_branch)
  ]

  next_apply : next g apply_change_and_test s ≡ some (target g apply_change_and_test s)
  unfolding next route_after_apply_and_test
  next_apply = elim (Bool-cases (is_true s.test_passed)) [
    | inl e ↦ rw (e, route_after_apply_and_test)
    | inr e ↦ elim (Bool-cases (s.workflow_ver == 99)) [
      | inl e' ↦ rw (e, e', route_after_apply_and_test)
      | inr e' ↦ elim (Bool-cases (ltb s.fix_retry_count max_fix_retries)) [
        | inl e'' ↦ rw (e, e', e'', route_after_apply_and_test)
        | inr e'' ↦ rw (e, e', e'', route_after_apply_and_test)
      ]
    ]
  ]

  next_code_review : next g code_review s ≡ some (target g code_review s)
  unfolding next route_after_code_review
  next_code_review = elim (Bool-cases (is_escalated s.code_review_status)) [
    | inl e ↦ rw (e, route_after_code_review)
    | inr e ↦ rw (e, route_after_code_review)
  ]

  next_ci : next g wait_ci_result s ≡ some (target g wait_ci_result s)
  unfolding next route_after_ci
  next_ci = elim (Option-cases s.ci_status) [
    | inl e ↦ rw (e, route_after_ci)
    | inr (x, e) ↦ elim (Bool-cases (str_eq x "success")) [
      | inl e' ↦ rw (e, e', route_after_ci)
      | inr e' ↦ rw (e, e', route_after_ci)
    ]
  ]

-- In every state the label that a node's router returns is in the node's map, and leads where the
-- diagram says.
pub next-eq-target :
    (g : Bool) (node : Node) (s : BugFixState) → next g node s ≡ some (target g node s)
unfolding next
next-eq-target g precheck_already_fixed s = next_precheck g s
next-eq-target g fetch_trace s = next_fetch_trace g s
next-eq-target g parse_trace s = next_parse_trace g s
next-eq-target g fetch_source_file s = refl
next-eq-target g react_loop s = next_react_loop g s
next-eq-target g mini_react_loop s = next_mini g s
next-eq-target g create_fix_branch s = next_create_fix_branch g s
next-eq-target g apply_change_and_test s = next_apply g s
next-eq-target g code_review s = next_code_review g s
next-eq-target g commit_change s = refl
next-eq-target g wait_ci_result s = next_ci g s
next-eq-target g create_mr s = refl
next-eq-target g handle_failure s = refl

pub Target-cases : (t : Target) → (t ≡ end) ⊎ ((n : Node) × (t ≡ to n))
Target-cases (to n) = inr (n, refl)
Target-cases end = inl refl
