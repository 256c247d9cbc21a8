-- ===== src/Orchestrator/Parser.antt =====
-- orchestrator/parser.py: which events come of the messages of the gateway. `none` is an exception.
-- `is_digit` is the class `\d`, which has the digits of every script.
pub mod Branches
use dev_harness.Base.{
  ℕ, Bool, true, false, ◌&&◌, ◌||◌, Option, none, some, List, [], ◌∷◌, ◌++◌, map, String, ◌==◌, leb,
  take, if◌then◌else◌, ◌>>=◌,
}
use dev_harness.Base.Json.{
  Json, null, bool, number, str, array, object, nil, cons, no_fields, Fields, item, get_item,
  is_word,
}
use dev_harness.Base.Text.{Text, codes, starts_with}

-- A class of characters.
pub data Class : Type 0 where
  digit hex : Class
  exactly : ℕ → Class

abbrev pub literal : String → List Class
literal s = map exactly (codes s)

abbrev pub two_digits : List Class
two_digits = digit ∷ digit ∷ []

-- `\d{4}_\d{2}_\d{2}-\d{2}_\d{2}_\d{2}_\d{1}`
abbrev pub moment_shape : List Class
moment_shape =
    two_digits
    ++ two_digits
    ++ literal "_"
    ++ two_digits
    ++ literal "_"
    ++ two_digits
    ++ literal "-"
    ++ two_digits
    ++ literal "_"
    ++ two_digits
    ++ literal "_"
    ++ two_digits
    ++ literal "_"
    ++ (digit ∷ [])

-- `_[0-9a-f]{4}`
abbrev pub tail_shape : List Class
tail_shape = literal "_" ++ (hex ∷ hex ∷ hex ∷ hex ∷ [])

-- `-[0-9a-f]{8}`
abbrev pub commit_shape : List Class
commit_shape = literal "-" ++ (hex ∷ hex ∷ hex ∷ hex ∷ hex ∷ hex ∷ hex ∷ hex ∷ [])

-- `-patch_(\d{2}_\d{2}_\d{2}_\d{1})`
abbrev pub patch_shape : List Class
patch_shape =
    literal "-patch_"
    ++ two_digits
    ++ literal "_"
    ++ two_digits
    ++ literal "_"
    ++ two_digits
    ++ literal "_"
    ++ (digit ∷ [])

-- `$` also stands before a line break at the end.
abbrev pub is_end : Text → Bool
is_end [] = true
is_end (c ∷ []) = c == 10
is_end (c ∷ d ∷ s) = false

abbrev pub either {ℓ} : {A : Type ℓ} → Option A → Option A → Option A
either none b = b
either (some a) b = some a

module _ (is_digit : ℕ → Bool) where
  unfoldable pub is_in : Class → ℕ → Bool
  is_in digit c = is_digit c
  is_in hex c = (leb 48 c && leb c 57) || (leb 97 c && leb c 102)
  is_in (exactly d) c = d == c

  -- The start of the text that the classes match, and the rest.
  unfoldable pub run : List Class → Text → Option (Text × Text)
  unfolding is_in
  run [] s = some ([], s)
  run (x ∷ xs) [] = none
  run (x ∷ xs) (c ∷ s) =
      let rest = run xs s in
      if is_in x c then rest >>= (λ found. some (c ∷ found.0, found.1)) else none

  -- `before(bug)after$`: group 1.
  unfoldable pub group : List Class → List Class → List Class → Text → Option Text
  unfolding run
  group before bug after s = do
    start ← run before s
    bug_id ← run bug start.1
    end ← run after bug_id.1
    if is_end end.1 then some bug_id.0 else none

  -- A pattern with the tail of the bug id, or without.
  unfoldable pub with_tail : List Class → List Class → Text → Option Text
  unfolding group
  with_tail before after s =
      either (group before (moment_shape ++ tail_shape) after s) (group before moment_shape after s)

  -- `parse_branch`, as group 1 of the match
  unfoldable pub parse_branch : Text → Option Text
  unfolding with_tail
  parse_branch s =
      either (with_tail (literal "auto/bug_") patch_shape s)
        (with_tail (literal "auto/bf/") commit_shape s)

pub data Event : Type 0 where
  bug_reported : Json → Json → Json → Text → Event
  validation_status : Text → Json → Event
  other : Event

-- `l[0]`
abbrev pub first_item : Json → Option Json
first_item (array (cons j l)) = some j
first_item (array nil) = none
first_item null = none
first_item (bool b) = none
first_item (number n) = none
first_item (str s) = none
first_item (object ms) = none

unfoldable pub report : Json → Text → Option Event
report payload branch = do
  project ← get_item "project" (object no_fields) payload
  project_id ← get_item "id" (str []) project
  project_web_url ← get_item "web_url" (str []) project
  builds ← get_item "builds" (array (cons (object no_fields) nil)) payload
  build ← first_item builds
  job_id ← get_item "id" (str []) build
  some (bug_reported project_id project_web_url job_id branch)

-- The branch is no fix branch, nor another one of the workers.
unfoldable pub from_pipeline : Json → Text → Json → Option Event
unfolding report
from_pipeline payload branch status = do
  kind ← item "object_kind" payload
  if is_word "pipeline" kind && is_word "failed" status then report payload branch else some other

unfoldable pub classify : Json → Text → Json → Option Text → Option Event
unfolding from_pipeline
classify payload branch status (some bug_id) = some (validation_status bug_id status)
classify payload branch status none =
    if starts_with branch (codes "auto/") then some other else from_pipeline payload branch status

abbrev pub as_text : Json → Option Text
as_text (str s) = some s
as_text null = none
as_text (bool b) = none
as_text (number n) = none
as_text (array l) = none
as_text (object ms) = none

-- `parse_message`, after `json.loads`
unfoldable pub parse_message : (ℕ → Bool) → Json → Option Event
unfolding classify
parse_message is_digit payload = do
  attributes ← item "object_attributes" payload
  ref ← item "ref" attributes
  status ← item "status" attributes
  branch ← as_text ref
  classify payload branch status (parse_branch is_digit branch)
