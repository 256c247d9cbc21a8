-- ===== src/LlmGateway/Config.antt =====
-- llm_gateway/config.py: the inference policy of a config file. `none` is `GatewayConfigError`.
pub mod Backends
pub mod Loading
use dev_harness.Base.{
  Bool, true, false, not, Option, none, some, List, [], ◌∷◌, String, ℤ, str_eq, is_zero, any,
  if◌then◌else◌,
}

-- A parsed YAML or JSON value; `other` is a value of another type, with its truth.
mutual
  pub data Value : Type 0 where
    null : Value
    bool : Bool → Value
    int : ℤ → Value
    str : String → Value
    sequence : Values → Value
    mapping : Fields → Value
    other : Bool → Value

  pub data Values : Type 0 where
    nil : Values
    cons : Value → Values → Values

  pub data Fields : Type 0 where
    empty : Fields
    field : String → Value → Fields → Fields

-- `raw.get(key)`; the parsers keep each key once.
abbrev pub get : String → Fields → Option Value
get key empty = none
get key (field k v fs) = if str_eq k key then some v else get key fs

-- Python's truth of a value.
abbrev pub truth : Value → Bool
truth null = false
truth (bool b) = b
truth (int n) = not (is_zero n)
truth (str s) = not (str_eq s "")
truth (sequence nil) = false
truth (sequence (cons v vs)) = true
truth (mapping empty) = false
truth (mapping (field k v fs)) = true
truth (other b) = b

pub record InferencePolicyConfig : Type 0 where
  pub order : List String
  pub advance_on_fix_failure : Bool

-- `raw.get("type", "ordered")` is "ordered".
is_ordered : Option Value → Bool
is_ordered none = true
is_ordered (some (str s)) = str_eq s "ordered"
is_ordered (some _) = false

-- The loop over the entries of `order`.
unfoldable pub check_entries : List String → List String → Values → Option (List String)
check_entries known seen nil = some []
check_entries known seen (cons (str n) vs) =
    let rest = check_entries known (n ∷ seen) vs in
    if any (str_eq n) known
    then (if any (str_eq n) seen then none else elim rest [ none ↦ none | some ns ↦ some (n ∷ ns) ])
    else none
check_entries known seen (cons _ vs) = none

unfoldable pub check_order : List String → Option Value → Option (List String)
unfolding check_entries
check_order known (some (sequence (cons v vs))) = check_entries known [] (cons v vs)
check_order known _ = none

-- `advance_on.get("fix_failure", True)`, where a falsy `advance_on` stands for an empty mapping.
fix_failure : Fields → Bool
fix_failure fs = elim (get "fix_failure" fs) [ none ↦ true | some v ↦ truth v ]

check_advance : Option Value → Option Bool
unfolding fix_failure
check_advance none = some true
check_advance (some (mapping fs)) = some (fix_failure fs)
check_advance (some v) = if truth v then none else some true

-- `_parse_policy`
unfoldable pub parse_policy : Value → List String → Option InferencePolicyConfig
unfolding is_ordered check_order check_advance
parse_policy (mapping fs) known =
    if is_ordered (get "type" fs)
    then elim (check_order known (get "order" fs)) [
      | none ↦ none
      | some order ↦ elim (check_advance (get "advance_on" fs)) [
        | none ↦ none
        | some advance ↦ some (record { order = order; advance_on_fix_failure = advance })
      ]
    ]
    else none
parse_policy _ known = none
