-- ===== src/LlmGateway/Keying.antt =====
-- llm_gateway/keying.py: the cache key of a request. A body is a dictionary of JSON values. `digest`
-- is the SHA-256 of what `json.dumps(payload, sort_keys=True)` writes, `show` is `str` of a value
-- that is no string, and the patterns of `_NORMALIZE_PATTERNS` with `re.sub` are arguments. The texts of a
-- request have no lone surrogates, which `encode` refuses.
pub mod Params
pub mod Messages
pub mod Tools
pub mod Collisions
use dev_harness.Base.{
  Bool, true, false, ◌||◌, Option, none, some, List, [], ◌∷◌, String, ltb, ◌==◌, if◌then◌else◌,
}
use dev_harness.Base.Dict
use dev_harness.Base.Dict.{Dict}
use dev_harness.Base.Text.{Text}
use dev_harness.Base.Json.{
  Json, Jsons, Fields, null, bool, number, str, array, object, nil, cons, no_fields, member, find,
  is_word,
}

-- `_normalize_volatile_content`
unfoldable pub normalize_volatile_content :
    {Pattern : Type 0} → (Pattern → Text → Text → Text) → List (Pattern × Text) → Text → Text
normalize_volatile_content sub [] text = text
normalize_volatile_content sub ((pattern, replacement) ∷ patterns) text =
    normalize_volatile_content sub patterns (sub pattern replacement text)

abbrev or_null : Option Json → Json
or_null none = null
or_null (some j) = j

-- `m.get(key)`
abbrev pub get : String → Fields → Json
get key ms = or_null (find key ms)

-- `role in ("system", "user", "tool")`
abbrev pub is_external : Json → Bool
is_external role = is_word "system" role || is_word "user" role || is_word "tool" role

-- The content of a kept message, where `rewrite` is there if `normalize_content` is set.
abbrev pub rewritten : Option (Text → Text) → Json → Json
rewritten (some f) (str s) = str (f s)
rewritten rewrite j = j

abbrev with_name : Option Json → Fields
with_name none = no_fields
with_name (some name) = member "name" name no_fields

abbrev pub kept : Option (Text → Text) → Fields → Json
kept rewrite ms = object (
    member "role" (get "role" ms)
      (member "content" (rewritten rewrite (get "content" ms)) (with_name (find "name" ms))))

-- One turn of the loop of `_normalize_messages`; `none` is `continue`.
unfoldable pub kept_message : Option (Text → Text) → Json → Option Json
kept_message rewrite (object ms) =
    if is_external (get "role" ms) then some (kept rewrite ms) else none
kept_message rewrite _ = none

abbrev put_first : Option Json → Jsons → Jsons
put_first none js = js
put_first (some j) js = cons j js

unfoldable pub kept_messages : Option (Text → Text) → Jsons → Jsons
kept_messages rewrite nil = nil
kept_messages rewrite (cons j js) = put_first (kept_message rewrite j) (kept_messages rewrite js)

-- `_normalize_messages`
unfoldable pub normalize_messages : Option (Text → Text) → Option Json → Json
normalize_messages rewrite (some (array js)) = array (kept_messages rewrite js)
normalize_messages rewrite _ = array nil

-- `str(fn.get("name", ""))`
abbrev name_of : (Json → Text) → Option Json → Text
name_of show none = []
name_of show (some (str s)) = s
name_of show (some j) = show j

-- `_key` of `_normalize_tools`
unfoldable pub tool_key : (Json → Text) → Json → Text
tool_key show (object ms) = elim (find "function" ms) [
  | some (object fn) ↦ name_of show (find "name" fn)
  | _ ↦ []
]
tool_key show _ = []

-- `s < t` of two texts.
unfoldable pub text_lt : Text → Text → Bool
text_lt s [] = false
text_lt [] (b ∷ t) = true
text_lt (a ∷ s) (b ∷ t) = let rest = text_lt s t in if a == b then rest else ltb a b

-- `out.sort(key=_key)` keeps the order of equal keys.
unfoldable pub insert_tool : (Json → Text) → Json → Jsons → Jsons
insert_tool show t nil = cons t nil
insert_tool show t (cons u us) =
    let rest = insert_tool show t us in
    if text_lt (tool_key show u) (tool_key show t) then cons u rest else cons t (cons u us)

abbrev pub is_object : Json → Bool
is_object (object ms) = true
is_object _ = false

unfoldable pub sorted_tools : (Json → Text) → Jsons → Jsons
sorted_tools show nil = nil
sorted_tools show (cons t ts) =
    let rest = sorted_tools show ts in if is_object t then insert_tool show t rest else rest

-- `_normalize_tools`
unfoldable pub normalize_tools : (Json → Text) → Option Json → Json
normalize_tools show (some (array ts)) = array (sorted_tools show ts)
normalize_tools show _ = array nil

-- `_PARAM_FIELDS`
abbrev pub param_fields : List String
param_fields =
    "temperature" ∷ "top_p" ∷ "top_k" ∷ "max_tokens" ∷ "max_completion_tokens" ∷ "presence_penalty"
    ∷ "frequency_penalty" ∷ "seed" ∷ "stop" ∷ "response_format" ∷ []

abbrev with_param : String → Option Json → Fields → Fields
with_param k none fs = fs
with_param k (some v) fs = member k v fs

unfoldable pub picked : List String → Dict Json → Fields
picked [] body = no_fields
picked (k ∷ ks) body = with_param k (Dict.lookup k body) (picked ks body)

-- `_normalize_params`
abbrev pub normalize_params : Dict Json → Json
normalize_params body = object (picked param_fields body)

abbrev pub or_empty : Option Json → Json
or_empty none = str []
or_empty (some model) = model

-- The payload of `derive_key`
unfoldable pub key_payload : Option (Text → Text) → (Json → Text) → Dict Json → Json
key_payload rewrite show body = object (
    member "model" (or_empty (Dict.lookup "model" body)) (
      member "external_messages" (normalize_messages rewrite (Dict.lookup "messages" body)) (
        member "tools" (normalize_tools show (Dict.lookup "tools" body))
          (member "params" (normalize_params body) no_fields))))

-- `derive_key`
abbrev pub derive_key : (Json → String) → Option (Text → Text) → (Json → Text) → Dict Json → String
derive_key digest rewrite show body = digest (key_payload rewrite show body)
