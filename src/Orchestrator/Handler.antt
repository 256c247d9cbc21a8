-- ===== src/Orchestrator/Handler.antt =====
-- orchestrator/orchestrator.py: `Orchestrator._handle_message`. The clock and the random tail of the bug
-- id are answers; `to_str` is `str` of a JSON value.
pub mod Loop
pub mod Reports
use dev_harness.Base.{ℕ, ◌+◌, ◌/◌, ◌%◌, Bool, Option, none, some, List, [], ◌∷◌, ◌++◌, take, ◌>>=◌}
use dev_harness.Base.Json.{Json}
use dev_harness.Base.Text.{Text, codes}
use dev_harness.Orchestrator.Parser.{Event, bug_reported, validation_status, other, parse_message}

-- `datetime.now()`
pub record Moment : Type 0 where
  pub year : ℕ
  pub month : ℕ
  pub day : ℕ
  pub hour : ℕ
  pub minute : ℕ
  pub second : ℕ
  pub microsecond : ℕ

abbrev pub two : ℕ → Text
two n = (48 + n / 10) ∷ (48 + n % 10) ∷ []

-- The bug id of a new bug. A year has four digits, and a tenth of a second has one.
abbrev pub new_bug_id : Moment → Text → Text
new_bug_id now tail =
    two (now.year / 100)
    ++ two (now.year % 100)
    ++ codes "_"
    ++ two now.month
    ++ codes "_"
    ++ two now.day
    ++ codes "-"
    ++ two now.hour
    ++ codes "_"
    ++ two now.minute
    ++ codes "_"
    ++ two now.second
    ++ codes "_"
    ++ ((48 + now.microsecond / 100000) ∷ [])
    ++ codes "_"
    ++ tail

-- What a message makes the orchestrator do.
pub data Reaction : Type 0 where
  spawn : (bug_id project_id : Text) → Json → (job_id source_branch : Text) → Reaction
  route : (bug_id : Text) → Json → Reaction
  nothing : Reaction

abbrev pub handle_event : (Json → Text) → Moment → Text → Event → Reaction
handle_event to_str now tail (bug_reported project_id project_web_url job_id branch) =
    spawn (new_bug_id now tail) (to_str project_id) project_web_url (to_str job_id) branch
handle_event to_str now tail (validation_status bug_id status) = route bug_id status
handle_event to_str now tail other = nothing

-- `_handle_message`, after `json.loads`; `none` is the exception that it passes on.
unfoldable pub handle_message : (ℕ → Bool) → (Json → Text) → Moment → Text → Json → Option Reaction
handle_message is_digit to_str now tail payload = do
  event ← parse_message is_digit payload
  some (handle_event to_str now tail event)

-- `deterministic_branch_name` of bf_worker/providers/gitlab_provider.py
unfoldable pub deterministic_branch_name : Text → Text → Text
deterministic_branch_name bug_id base_commit =
    codes "auto/bf/" ++ (bug_id ++ (codes "-" ++ take 8 base_commit))
