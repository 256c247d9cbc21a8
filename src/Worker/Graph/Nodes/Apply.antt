-- ===== src/Worker/Graph/Nodes/Apply.antt =====
-- bf_worker/graph/nodes/apply_change_and_test.py: which fixes name a file, the counting of retries,
-- and the verdict.
use dev_harness.Base.{
  ◌+◌, Bool, true, false, not, ◌&&◌, Option, none, some, List, [], ◌∷◌, String, ◌==◌, if◌then◌else◌,
}
use dev_harness.Base.Text.{codes, is_blank}
use dev_harness.Worker.Budget.{record_call}
use dev_harness.Worker.Graph.State.{BugFixState, FixEntry, LlmResult, truthy, truthy?, is_true}
use dev_harness.Worker.Graph.World.{
  Run, World, Usage, ApplyOutcome, scope_error, anchor_error, crashed, setup_failed, tested,
}

abbrev charge : Option Usage → Run → Run
charge none r = r
charge (some u) r = record r { budget = record_call u.input u.output u.cost r.budget }

-- `_finalize`: a failure runs the POST_APPLY_TEST hook, which may charge a model call.
finalize : Option Usage → Run → Run
finalize post_mortem r = if is_true r.state.test_passed then r else charge post_mortem r

-- The file that a fix goes to; `none` is the rejection for a missing `file_path`.
abbrev fix_target : BugFixState → FixEntry → Option String
fix_target s f =
    if truthy? f.file_path
    then f.file_path
    else if truthy s.suspect_file_path && not s.source_fetch_failed
    then some s.suspect_file_path
    else none

all_targeted : BugFixState → List FixEntry → Bool
all_targeted s [] = true
all_targeted s (f ∷ fs) = elim (fix_target s f) [ none ↦ false | some path ↦ all_targeted s fs ]

-- A verdict that counts as one more retry, and one that does not.
abbrev count_failure : Run → Run
count_failure r = record r {
  state = record r.state {
    test_passed = some false;
    fix_retry_count = r.state.fix_retry_count + 1;
  };
}

abbrev set_verdict : Bool → Run → Run
set_verdict passed r = record r { state = record r.state { test_passed = some passed } }

try_fixes : ApplyOutcome → Run → Option Run
try_fixes scope_error r = some (count_failure r)
try_fixes anchor_error r = some (count_failure r)
try_fixes crashed r = some (set_verdict false r)
try_fixes setup_failed r = none
try_fixes (tested true) r = some (set_verdict true r)
try_fixes (tested false) r = some (count_failure r)

abbrev finalize? : Option Usage → Option Run → Option Run
finalize? u none = none
finalize? u (some r) = some (finalize u r)

abbrev patch_text : Option String → String
patch_text none = ""
patch_text (some p) = p

-- `_apply_model_patch_ver99`: a failed patch counts no retry.
apply_model_patch_ver99 : World → Run → Run
unfolding is_blank
apply_model_patch_ver99 w r =
    if is_blank (codes (patch_text r.state.model_patch))
    then set_verdict false r
    else set_verdict w.patch_applies r

apply_fixes : World → Option LlmResult → Run → Option Run
unfolding all_targeted try_fixes
apply_fixes w none r = none
apply_fixes w (some result) r =
    if all_targeted r.state result.fixes then try_fixes w.applied r else some (count_failure r)

unfoldable pub visit_apply : World → Run → Option Run
unfolding finalize apply_model_patch_ver99 apply_fixes
visit_apply w r =
    if w.repo_ready
    then (if r.state.workflow_ver == 99
        then some (finalize w.post_mortem (apply_model_patch_ver99 w r))
        else finalize? w.post_mortem (apply_fixes w r.state.llm_result r))
    else none
