-- ===== src/Worker/Graph/State.antt =====
-- bf_worker/graph/state.py: the keys of `BugFixState` that a router reads or that decide a node's
-- result. A key that is absent or None is `none`, and one that every reader defaults to 0 or False is
-- that default; the keys that only carry telemetry are left out.
use dev_harness.Base.{ℕ, Bool, false, not, Option, none, some, List, String, str_eq}

-- One entry of `llm_result["fixes"]`, as far as this graph looks into it.
pub record FixEntry : Type 0 where
  pub file_path : Option String

pub record LlmResult : Type 0 where
  pub can_fix : Bool
  pub fixes : List FixEntry

-- The values of `code_review_status`; None is `none` in the state.
pub data ReviewStatus : Type 0 where
  clean advisory would_escalate escalated rounds_exhausted : ReviewStatus
  skipped_budget skipped_no_files error : ReviewStatus

pub record BugFixState : Type 0 where
  pub workflow_ver : ℕ
  pub already_fixed : Bool
  pub suspect_file_path : String
  pub source_fetch_failed : Bool
  pub model_patch : Option String
  pub llm_result : Option LlmResult
  pub fix_retry_count : ℕ
  pub no_fix_retry_count : ℕ
  pub fix_branch_name : Option String
  pub test_passed : Option Bool
  pub code_review_status : Option ReviewStatus
  pub code_review_rounds : ℕ
  pub ci_status : Option String

-- A run of workflow `ver` before its first node.
abbrev pub initial_state : ℕ → BugFixState
initial_state ver = record {
  workflow_ver = ver;
  already_fixed = false;
  suspect_file_path = "";
  source_fetch_failed = false;
  model_patch = none;
  llm_result = none;
  fix_retry_count = 0;
  no_fix_retry_count = 0;
  fix_branch_name = none;
  test_passed = none;
  code_review_status = none;
  code_review_rounds = 0;
  ci_status = none;
}

-- Python's truth of a text, of an optional text and of an optional flag.
abbrev pub truthy : String → Bool
truthy s = not (str_eq s "")

abbrev pub truthy? : Option String → Bool
truthy? none = false
truthy? (some s) = truthy s

abbrev pub is_true : Option Bool → Bool
is_true none = false
is_true (some b) = b
