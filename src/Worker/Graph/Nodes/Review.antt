-- ===== src/Worker/Graph/Nodes/Review.antt =====
-- bf_worker/graph/nodes/code_review.py: the reviewer of a patch that passed its tests.
use dev_harness.Base.{
  ◌+◌, Bool, true, false, ◌&&◌, Option, none, some, List, [], ◌∷◌, ◌++◌, String, str_eq, ltb, any,
  pos, if◌then◌else◌,
}
use dev_harness.Worker.Budget.{check, record_call}
use dev_harness.Worker.Graph.State.{
  BugFixState, FixEntry, LlmResult, ReviewStatus, clean, advisory, would_escalate, escalated,
  rounds_exhausted, skipped_budget, skipped_no_files, error, truthy,
}
use dev_harness.Worker.Graph.World.{Run, World, CodeReviewConfig, Finding, Report}

-- The files to read: the suspect, then the fixes' files, each once.
add_path : List String → Option String → List String
add_path paths none = paths
add_path paths (some p) =
    if truthy p then (if any (str_eq p) paths then paths else paths ++ (p ∷ [])) else paths

fix_paths : List String → List FixEntry → List String
fix_paths paths [] = paths
fix_paths paths (f ∷ fs) = fix_paths (add_path paths f.file_path) fs

abbrev result_fixes : Option LlmResult → List FixEntry
result_fixes none = []
result_fixes (some r) = r.fixes

review_paths : BugFixState → List String
unfolding add_path fix_paths
review_paths s = fix_paths (add_path [] (some s.suspect_file_path)) (result_fixes s.llm_result)

is_escalating : Finding → Bool
is_escalating f = str_eq f.severity "high" && str_eq f.confidence "high"

abbrev set_status : ReviewStatus → BugFixState → BugFixState
set_status status s = record s { code_review_status = some status }

-- The statuses that only record: shadow mode, or nothing that would escalate.
recorded : Bool → List Finding → ReviewStatus
recorded true findings = would_escalate
recorded false [] = clean
recorded false (f ∷ fs) = advisory

judge : CodeReviewConfig → Report → BugFixState → BugFixState
unfolding is_escalating recorded
judge cr report s =
    if report.error
    then set_status error s
    else if str_eq cr.mode "acting" && any is_escalating report.findings
    then (if ltb s.code_review_rounds cr.max_rounds
        then record s {
          code_review_status = some escalated;
          code_review_rounds = s.code_review_rounds + 1;
        }
        else set_status rounds_exhausted s)
    else set_status (recorded (any is_escalating report.findings) report.findings) s

inspect : CodeReviewConfig → Option Report → Run → Run
unfolding judge
inspect cr none r = record r { state = set_status error r.state }
inspect cr (some report) r = record {
  state = judge cr report r.state;
  budget = record_call (pos 0) (pos 0) none r.budget;
}

-- An enabled review.
review : CodeReviewConfig → World → Run → Run
unfolding inspect review_paths
review cr w r =
    let (checked, reason) = check w.review_at r.budget in
    elim reason [
      | some _ ↦ record { state = set_status skipped_budget r.state; budget = checked }
      | none ↦
          if any w.readable (review_paths r.state)
          then inspect cr w.inspection (record r { budget = checked })
          else record { state = set_status skipped_no_files r.state; budget = checked }
    ]

unfoldable pub visit_code_review : Option CodeReviewConfig → World → Run → Run
unfolding review
visit_code_review none w r = r
visit_code_review (some cr) w r = if cr.enabled then review cr w r else r
