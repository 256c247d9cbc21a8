-- ===== src/Worker/RetryTests.antt =====
-- Concrete retries and responses: the theorems at inputs where their conditions hold.
use dev_harness.Base.{pos, ◌+ℤ◌, ℕ, zero, suc, ◌≡◌, refl, none, some, [], ◌∷◌, length}
use dev_harness.Base.Text.{parse_int}
use dev_harness.Worker.Usage.{UsageBlock, by_block, fold_reasoning, extract_token_usage}
use dev_harness.Worker.TransientRetry.{
  Attempt, value, failure, returned, http, requests_timeout, default_retry_delays,
  parse_retry_after, classify_transient, attempts_from, with_transient_retry,
}
use dev_harness.Worker.TransientRetry.Attempts.{Attempted, with_transient_retry_lem}

-- Two failures, the first with a suggestion of ten minutes, then a value.
abbrev flaky : ℕ → Attempt ℕ
flaky zero = failure (http (some 429) (some "600"))
flaky (suc zero) = failure requests_timeout
flaky (suc (suc i)) = value 7

flaky_run : with_transient_retry flaky default_retry_delays ≡ (returned 7 2, 30 ∷ 2 ∷ [])
unfolding with_transient_retry attempts_from classify_transient parse_retry_after parse_int
flaky_run = refl

with_transient_retry_lem_example :
    Attempted flaky 0
      (length default_retry_delays)
      (with_transient_retry flaky default_retry_delays).0
      (with_transient_retry flaky default_retry_delays).1
with_transient_retry_lem_example = with_transient_retry_lem flaky default_retry_delays

-- A response of a backend that charges its reasoning on top.
abbrev thinking : UsageBlock
thinking = record {
  prompt_tokens = some (pos 20);
  completion_tokens = some (pos 10);
  reasoning_tokens = some (pos 27);
  cached_tokens = none;
  block_total = some (pos 57);
}

bills_thinking : extract_token_usage (by_block thinking) ≡ (pos 20, pos 37)
unfolding extract_token_usage fold_reasoning ◌+ℤ◌
bills_thinking = refl
