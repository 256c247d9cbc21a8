-- ===== src/LlmGateway/Costs.antt =====
-- llm_gateway/cost.py and the prices of llm_gateway/config.py: the usage block of a response, and what
-- the call costs. A cost is a whole number of millionths of the unit of prices, and exact, where the source
-- rounds as floats do. In `read_usage`, `none` is a `TypeError` or a `ValueError`.
use dev_harness.Base.{
  ℕ, ◌+◌, ◌-◌, ◌*◌, min, Option, none, some, [], ◌∷◌, String, ℤ, pos, clip, ◌>>=◌, if◌then◌else◌,
}
use dev_harness.Base.Text.{parse_int}
use dev_harness.Base.Json.{
  Json, Fields, null, bool, number, str, array, object, nil, cons, no_fields, member, find,
}
use dev_harness.LlmGateway.Config.Backends.{PricingConfig}
use dev_harness.Worker.Usage.{Usage, extract_usage}

-- `int(v or 0)`
abbrev pub int_of : Option Json → Option ℤ
int_of none = some (pos 0)
int_of (some null) = some (pos 0)
int_of (some (bool b)) = some (pos (if b then 1 else 0))
int_of (some (number n)) = some (pos n)
int_of (some (str [])) = some (pos 0)
int_of (some (str (c ∷ s))) = parse_int (c ∷ s)
int_of (some (array nil)) = some (pos 0)
int_of (some (array (cons j js))) = none
int_of (some (object no_fields)) = some (pos 0)
int_of (some (object (member k j js))) = none

-- A count in a block of details.
abbrev detail : String → Option Json → Option ℤ
detail key (some (object ms)) = int_of (find key ms)
detail key _ = some (pos 0)

abbrev total_of : Option Json → Option ℤ
total_of (some (number n)) = some (pos n)
total_of _ = none

abbrev read_block : Fields → Option Usage
read_block u = do
  cached ← detail "cached_tokens" (find "prompt_tokens_details" u)
  reasoning ← detail "reasoning_tokens" (find "completion_tokens_details" u)
  prompt ← int_of (find "prompt_tokens" u)
  completion ← int_of (find "completion_tokens" u)
  some (
      extract_usage (record {
        prompt_tokens = some prompt;
        completion_tokens = some completion;
        reasoning_tokens = some reasoning;
        cached_tokens = some cached;
        block_total = total_of (find "total_tokens" u);
      }))

abbrev read_usage_of : Option Json → Option (Option Usage)
read_usage_of (some (object u)) = do usage ← read_block u; some (some usage)
read_usage_of _ = some none

-- `extract_usage`; `some none` is a response that tells no usage.
unfoldable pub read_usage : Json → Option (Option Usage)
read_usage (object ms) = read_usage_of (find "usage" ms)
read_usage _ = some none

abbrev pub rate_or : ℕ → Option ℕ → ℕ
rate_or n none = n
rate_or n (some m) = m

-- `PricingConfig.cost_usd`
unfoldable pub cost_usd : PricingConfig → ℤ → ℤ → ℤ → ℕ
cost_usd p prompt completion cached =
    let from_cache = min (clip cached) (clip prompt) in
    let full = clip prompt - from_cache in
    full * p.input_per_1m
    + from_cache * rate_or p.input_per_1m p.cached_input_per_1m
    + clip completion * p.output_per_1m

-- `cost_of`
abbrev pub cost_of : Option PricingConfig → Option Usage → Option ℕ
cost_of pricing none = none
cost_of none (some u) = none
cost_of (some p) (some u) = some (cost_usd p u.prompt u.completion u.cached)
