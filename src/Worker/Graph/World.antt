-- ===== src/Worker/Graph/World.antt =====
-- What stands outside the graph of bf_worker: the answers that the nodes get, and the settings.
use dev_harness.Base.{ℕ, Bool, Option, List, String, ℤ}
use dev_harness.Worker.Budget.{RunBudget}
use dev_harness.Worker.Graph.State.{BugFixState}
use dev_harness.Worker.Graph.ReactLoop.{Reply}

-- A run between two nodes: the state and the budget in `config["configurable"]`.
pub record Run : Type 0 where
  pub state : BugFixState
  pub budget : RunBudget

-- `CodeReviewConfig`, less the inspector.
pub record CodeReviewConfig : Type 0 where
  pub enabled : Bool
  pub mode : String
  pub max_rounds : ℕ

-- `cfg.llm_via_gateway`, and the code-review settings where there are any.
pub record Settings : Type 0 where
  pub via_gateway : Bool
  pub review : Option CodeReviewConfig

-- mini's run: it raised (as did the reading of the instance), or its stripped patch.
pub data MiniOutcome : Type 0 where
  mini_failed : MiniOutcome
  mini_patch : String → MiniOutcome

-- provider.create_fix_branch: it raised or returned None, or a branch and whether its MR is merged.
pub data BranchOutcome : Type 0 where
  branch_failed : BranchOutcome
  branch_ready : String → Bool → BranchOutcome

-- Applying and testing fixes that all name a file: refused by the patch guard, refused by an anchor,
-- failed in another way, tested with a verdict, or an exception of the venv's setup.
pub data ApplyOutcome : Type 0 where
  scope_error anchor_error crashed setup_failed : ApplyOutcome
  tested : Bool → ApplyOutcome

pub record Finding : Type 0 where
  pub severity : String
  pub confidence : String

pub record Report : Type 0 where
  pub error : Bool
  pub findings : List Finding

-- The arguments of `record_call`.
pub record Usage : Type 0 where
  pub input : ℤ
  pub output : ℤ
  pub cost : Option ℤ

pub record World : Type 0 where
  pub merged_mr : Bool  -- the probe for a merged MR found one
  pub trace_fetched : Bool  -- false: fetch_trace raised
  pub parsed : Option (Option String)  -- none: it raised; some none: no suspect file
  pub source_readable : Bool
  pub mini : MiniOutcome
  pub replies : ℕ → Reply
  pub repo_ready : Bool  -- false: ensure_repo_ready raised
  pub branch : BranchOutcome
  pub patch_applies : Bool  -- one of the three commands applied the model patch
  pub applied : ApplyOutcome
  pub post_mortem : Option Usage  -- the model call of a POST_APPLY_TEST hook
  pub review_at : ℕ
  pub readable : String → Bool
  pub inspection : Option Report  -- none: the inspector raised
  pub committed : Bool
  pub ci : Option (Option String)  -- none: waiting raised; some none: it timed out
  pub mr_created : Bool
