-- ===== src/Worker/Usage.antt =====
-- The billable tokens of a response, which two programs read: bf_worker/services/budget.py from the
-- message of LangChain, and llm_gateway/cost.py from the body of the backend. A count is an integer or
-- missing (or null); the total is missing too where it is a Boolean or no number.
use dev_harness.Base.{
  ℕ, ◌≡◌, refl, Bool, ◌||◌, Option, none, some, List, [], ◌∷◌, String, str_eq, ℤ, pos, negsuc, clip,
  is_pos, ap, eqb_ℤ, ◌+ℤ◌, arith, if◌then◌else◌,
}
use mathlib.Core.List.{reverse}
use dev_harness.Base.Text.{codes, starts_with}

abbrev or_zero : Option ℤ → ℤ
or_zero none = pos 0
or_zero (some n) = n

-- `_fold_reasoning`, which stands in both programs
unfoldable pub fold_reasoning : ℤ → ℤ → ℤ → Option ℤ → ℤ
fold_reasoning prompt completion reasoning total =
    if is_pos reasoning
    then elim total [
      | none ↦ completion
      | some t ↦
          if eqb_ℤ t (prompt +ℤ completion +ℤ reasoning)
          then completion +ℤ reasoning
          else completion
    ]
    else completion

-- `key == "reasoning" or key.endswith("_reasoning")`
is_reasoning_key : String → Bool
is_reasoning_key key =
    str_eq key "reasoning" || starts_with (reverse (codes key)) (reverse (codes "_reasoning"))

-- `_reasoning_count` of `output_token_details`
unfoldable pub reasoning_count : List (String × Option ℤ) → ℕ
unfolding is_reasoning_key
reasoning_count [] = 0
reasoning_count ((key, value) ∷ details) =
    if is_reasoning_key key then clip (or_zero value) else reasoning_count details

-- `usage_metadata`
pub record UsageMetadata : Type 0 where
  pub input_tokens : Option ℤ
  pub output_tokens : Option ℤ
  pub output_token_details : List (String × Option ℤ)
  pub meta_total : Option ℤ

-- The `usage` block of an OpenAI-shaped response; `reasoning_tokens` is in its details.
pub record UsageBlock : Type 0 where
  pub prompt_tokens : Option ℤ
  pub completion_tokens : Option ℤ
  pub reasoning_tokens : Option ℤ
  pub cached_tokens : Option ℤ
  pub block_total : Option ℤ

-- What a message carries: either, or nothing.
pub data Reported : Type 0 where
  by_metadata : UsageMetadata → Reported
  by_block : UsageBlock → Reported
  nothing : Reported

-- `extract_token_usage`
unfoldable pub extract_token_usage : Reported → ℤ × ℤ
extract_token_usage (by_metadata u) = (
  or_zero u.input_tokens,
  fold_reasoning (or_zero u.input_tokens) (or_zero u.output_tokens)
      (pos (reasoning_count u.output_token_details)) u.meta_total,
)
extract_token_usage (by_block u) = (
  or_zero u.prompt_tokens,
  fold_reasoning (or_zero u.prompt_tokens) (or_zero u.completion_tokens)
      (pos (clip (or_zero u.reasoning_tokens))) u.block_total,
)
extract_token_usage nothing = (pos 0, pos 0)

-- `Usage` of the gateway
pub record Usage : Type 0 where
  pub prompt : ℤ
  pub completion : ℤ
  pub cached : ℤ
  pub reasoning : ℤ

-- `extract_usage` of the gateway, where the body has a usage block
unfoldable pub extract_usage : UsageBlock → Usage
extract_usage u = record {
  prompt = or_zero u.prompt_tokens;
  completion =
      fold_reasoning (or_zero u.prompt_tokens) (or_zero u.completion_tokens)
        (or_zero u.reasoning_tokens) u.block_total;
  cached = or_zero u.cached_tokens;
  reasoning = or_zero u.reasoning_tokens;
}

fold-clip :
    (prompt completion reasoning : ℤ) (total : Option ℤ)
    → fold_reasoning prompt completion (pos (clip reasoning)) total
      ≡ fold_reasoning prompt completion reasoning total
unfolding fold_reasoning
fold-clip prompt completion (pos n) total = refl
fold-clip prompt completion (negsuc n) total = ground arith

-- The worker and the gateway read the same input and the same billable output from a usage block,
-- though only the worker clips a negative count of reasoning tokens.
pub extract_token_usage-extract_usage :
    (u : UsageBlock)
    → extract_token_usage (by_block u) ≡ ((extract_usage u).prompt, (extract_usage u).completion)
unfolding extract_token_usage extract_usage
extract_token_usage-extract_usage u =
    ap (λ n. (or_zero u.prompt_tokens, n))
      (fold-clip (or_zero u.prompt_tokens) (or_zero u.completion_tokens)
        (or_zero u.reasoning_tokens) u.block_total)
