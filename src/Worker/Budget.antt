-- ===== src/Worker/Budget.antt =====
-- bf_worker/services/budget.py: `RunBudget`, the fence around one run. Times are milliseconds on the
-- monotonic clock, amounts of money are whole micro-dollars; a reason is a constructor with the
-- numbers that its text shows.
pub mod Caps
use dev_harness.Base.{
  ℕ, ◌+◌, ◌-◌, ◌*◌, Bool, true, false, ◌&&◌, Option, none, some, ℤ, clip, leb, is_some,
  if◌then◌else◌,
}

pub data Reason : Type 0 where
  call_limit token_limit cost_limit wallclock_limit : ℕ → ℕ → Reason

abbrev pub default_max_calls : ℕ
default_max_calls = 30

abbrev pub default_max_tokens : ℕ
default_max_tokens = 200_000

abbrev pub default_max_wallclock_s : ℕ
default_max_wallclock_s = 300

pub record RunBudget : Type 0 where
  pub max_calls : ℕ
  pub max_tokens : ℕ
  pub max_wallclock_s : ℕ
  pub max_cost_usd : Option ℕ
  pub calls : ℕ
  pub input_tokens : ℕ
  pub output_tokens : ℕ
  pub cost_usd : Option ℕ
  pub started_at : ℕ
  pub exhausted_reason : Option Reason

-- `RunBudget(max_cost_usd=…)` at the time `now`.
abbrev pub new_budget : Option ℕ → ℕ → RunBudget
new_budget cap now = record {
  max_calls = default_max_calls;
  max_tokens = default_max_tokens;
  max_wallclock_s = default_max_wallclock_s;
  max_cost_usd = cap;
  calls = 0;
  input_tokens = 0;
  output_tokens = 0;
  cost_usd = none;
  started_at = now;
  exhausted_reason = none;
}

abbrev pub total_tokens : RunBudget → ℕ
total_tokens b = b.input_tokens + b.output_tokens

-- The clock is monotonic, so the truncated difference is exact.
abbrev pub elapsed_ms : ℕ → RunBudget → ℕ
elapsed_ms now b = now - b.started_at

abbrev over_cost : Option ℕ → Option ℕ → Option Reason
over_cost (some cap) (some cost) = if leb cap cost then some (cost_limit cost cap) else none
over_cost _ _ = none

-- The chain of tests: the first cap that is reached.
first_cap : ℕ → RunBudget → Option Reason
first_cap now b =
    if leb b.max_calls b.calls
    then some (call_limit b.calls b.max_calls)
    else if leb b.max_tokens (total_tokens b)
    then some (token_limit (total_tokens b) b.max_tokens)
    else elim (over_cost b.max_cost_usd b.cost_usd) [
      | some r ↦ some r
      | none ↦
          if leb (b.max_wallclock_s * 1000) (elapsed_ms now b)
          then some (wallclock_limit (elapsed_ms now b) b.max_wallclock_s)
          else none
    ]

-- `check` returns the reason and keeps the first one.
unfoldable pub check : ℕ → RunBudget → RunBudget × Option Reason
unfolding first_cap
check now b = elim b.exhausted_reason [
  | some r ↦ (b, some r)
  | none ↦ (record b { exhausted_reason = first_cap now b }, first_cap now b)
]

pub is_exhausted : ℕ → RunBudget → Bool
is_exhausted now b = is_some (check now b).1

abbrev add_cost : Option ℕ → Option ℤ → Option ℕ
add_cost cost none = cost
add_cost none (some c) = some (clip c)
add_cost (some total) (some c) = some (total + clip c)

unfoldable pub record_call : ℤ → ℤ → Option ℤ → RunBudget → RunBudget
record_call input output cost b = record b {
  calls = b.calls + 1;
  input_tokens = b.input_tokens + clip input;
  output_tokens = b.output_tokens + clip output;
  cost_usd = add_cost b.cost_usd cost;
}
