-- ===== src/LlmGateway/Policy.antt =====
-- llm_gateway/policy.py: which backend serves an attempt. A backend is of any type. `none` is a
-- `KeyError` or an `IndexError`.
pub mod Ladder
use dev_harness.Base.{
  ℕ, ◌-◌, min, Bool, Option, none, some, String, ℤ, clip, ◌==◌, length, get_elem?, if◌then◌else◌,
}
use dev_harness.Base.Dict
use dev_harness.Base.Dict.{Dict}
use dev_harness.Base.Text.{codes, parse_int}
use dev_harness.LlmGateway.Config.{InferencePolicyConfig}

pub data Reason : Type 0 where
  primary fix_failure_advance : Reason

pub record Selection (B : Type 0) : Type 0 where
  pub backend : B
  pub reason : Reason

abbrev pub index_of : InferencePolicyConfig → ℤ → ℕ
index_of policy attempt =
    if policy.advance_on_fix_failure then min (clip attempt) (length policy.order - 1) else 0

-- `InferencePolicy.select`
unfoldable pub select : {B : Type 0} → InferencePolicyConfig → Dict B → ℤ → Option (Selection B)
select policy backends attempt =
    let idx = index_of policy attempt in
    elim (get_elem? policy.order idx) [
      | none ↦ none
      | some name ↦ elim (Dict.lookup name backends) [
        | none ↦ none
        | some b ↦
            some
              (record { backend = b; reason = if idx == 0 then primary else fix_failure_advance })
      ]
    ]

abbrev or_zero : Option ℤ → ℕ
or_zero none = 0
or_zero (some n) = clip n

-- A missing header is not parsed, and an empty one parses to an error.
unfoldable pub parse_attempt_header : Option String → ℕ
parse_attempt_header none = 0
parse_attempt_header (some value) = or_zero (parse_int (codes value))
