-- ===== src/Base/Json.antt =====
-- What `json` reads and writes, with whole numbers only, and `d[key]`, `d.get(key, default)`.
use Prim.Native.Nat.{ℕ}
use Prim.Native.String.{String}
use mathlib.Core.Bool.{Bool, false}
use mathlib.Core.Option.{Option, none, some}
use text.Mathlib.Text.{◌==◌ as str_eq}
use dev_harness.Base.Tests.{if◌then◌else◌}
use dev_harness.Base.Text.{Text, codes, text_eq}

mutual
  pub data Json : Type 0 where
    null : Json
    bool : Bool → Json
    number : ℕ → Json
    str : Text → Json
    array : Jsons → Json
    object : Fields → Json

  pub data Jsons : Type 0 where
    nil : Jsons
    cons : Json → Jsons → Jsons

  pub data Fields : Type 0 where
    no_fields : Fields
    member : String → Json → Fields → Fields

abbrev pub find : String → Fields → Option Json
find key no_fields = none
find key (member k j rest) = let later = find key rest in if str_eq k key then some j else later

-- `none` is the exception that is raised.
abbrev pub item : String → Json → Option Json
item key (object ms) = find key ms
item key null = none
item key (bool b) = none
item key (number n) = none
item key (str s) = none
item key (array l) = none

abbrev pub or_default : Json → Option Json → Option Json
or_default d none = some d
or_default d (some j) = some j

abbrev pub get_item : String → Json → Json → Option Json
get_item key d (object ms) = or_default d (find key ms)
get_item key d null = none
get_item key d (bool b) = none
get_item key d (number n) = none
get_item key d (str s) = none
get_item key d (array l) = none

-- `j == word`
abbrev pub is_word : String → Json → Bool
is_word word (str s) = text_eq s (codes word)
is_word word null = false
is_word word (bool b) = false
is_word word (number n) = false
is_word word (array l) = false
is_word word (object ms) = false
