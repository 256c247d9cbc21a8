-- ===== src/LlmGateway/Tests.antt =====
-- Concrete configs: the theorems at inputs where their conditions hold.
use dev_harness.Base.{ℕ, ◌≡◌, refl, true, none, some, [], ◌∷◌}
use dev_harness.Base.Dict.{Dict, keys}
use dev_harness.Base.Text.{parse_int}
use dev_harness.LlmGateway.Config.{
  Value, InferencePolicyConfig, bool, str, sequence, mapping, nil, cons, empty, field,
  check_entries, check_order, parse_policy,
}
use dev_harness.LlmGateway.Policy.{parse_attempt_header}

abbrev backends : Dict ℕ
backends = ("small", 1) ∷ ("large", 2) ∷ []

abbrev raw_policy : Value
raw_policy = mapping (
    field "order" (sequence (cons (str "large") (cons (str "small") nil)))
      (field "advance_on" (mapping (field "fix_failure" (bool true) empty)) empty))

abbrev policy : InferencePolicyConfig
policy = record { order = "large" ∷ "small" ∷ []; advance_on_fix_failure = true }

accepted : parse_policy raw_policy (keys backends) ≡ some policy
unfolding parse_policy check_order check_entries
accepted = refl

-- An entry that stands twice is refused.
refused :
    parse_policy
      (mapping (field "order" (sequence (cons (str "large") (cons (str "large") nil))) empty))
      (keys backends)
    ≡ none
unfolding parse_policy check_order check_entries
refused = refl

headers :
    (parse_attempt_header (some "3") ≡ 3)
    × (parse_attempt_header (some "-3") ≡ 0)
    × (parse_attempt_header (some "x") ≡ 0)
unfolding parse_attempt_header parse_int
headers = (refl, refl, refl)
