-- ===== src/Tools/CacheTransfer.antt =====
-- tools/llm_cache_transfer.py: a response cache is exported to a file and merged into another. A table is
-- a dictionary, since its primary key is `cache_key`; `none` is a `TransferError`.
pub mod Merging
pub mod Shipping
use dev_harness.Base.{
  ℕ, ◌+◌, ◌-◌, Bool, true, false, ◌&&◌, Option, none, some, List, [], ◌∷◌, String, leb, max, length,
  str_eq, is_some, if◌then◌else◌,
}
use dev_harness.Base.Dict
use dev_harness.Base.Dict.{Dict}
use dev_harness.LlmGateway.Cache.{CacheEntry}

-- A file that may be a cache: it is not there, of another schema, or has rows.
pub data Database : Type 0 where
  missing other_schema : Database
  table : Dict CacheEntry → Database

-- `open_source`
abbrev pub open_source : Database → Option (Dict CacheEntry)
open_source missing = none
open_source other_schema = none
open_source (table rows) = some rows

-- `open_target` with `create=True`
abbrev pub open_target : Database → Option (Dict CacheEntry)
open_target missing = some []
open_target other_schema = none
open_target (table rows) = some rows

-- The `WHERE` clause; `cutoff` is the time that `since_days` gives, in milliseconds.
abbrev pub of_backend : Option String → Option String → Bool
of_backend none name = true
of_backend (some wanted) none = str_eq wanted ""
of_backend (some wanted) (some name) = if str_eq wanted "" then true else str_eq name wanted

abbrev pub not_before : Option ℕ → ℕ → Bool
not_before none at = true
not_before (some cutoff) at = leb cutoff at

abbrev pub selected_by : Option String → Option ℕ → CacheEntry → Bool
selected_by backend cutoff e =
    of_backend backend e.original_backend_name && not_before cutoff e.recorded_at_ms

-- `INSERT OR REPLACE` of every row that is selected
unfoldable pub copy_rows : (CacheEntry → Bool) → Dict CacheEntry → Dict CacheEntry → Dict CacheEntry
copy_rows p [] d = d
copy_rows p ((k, e) ∷ rows) d =
    if p e then copy_rows p rows (Dict.insert k e d) else copy_rows p rows d

abbrev written : Database → Option String → Option ℕ → Option (Dict CacheEntry) → Option Database
written missing backend cutoff (some rows) =
    some (table (copy_rows (selected_by backend cutoff) rows []))
written _ backend cutoff rows = none

-- `export`; a file that is there is not overwritten.
unfoldable pub export : Database → Database → Option String → Option ℕ → Option Database
export db out backend cutoff = written out backend cutoff (open_source db)

-- The row of `ON CONFLICT ... DO UPDATE`
abbrev pub updated : CacheEntry → CacheEntry → CacheEntry
updated old e = record e { hit_count = max old.hit_count e.hit_count }

abbrev pub resolved : Bool → CacheEntry → Option CacheEntry → CacheEntry
resolved overwrite e none = e
resolved overwrite e (some old) = if overwrite then updated old e else old

-- One upsert
abbrev pub import_row : Bool → String → CacheEntry → Dict CacheEntry → Dict CacheEntry
import_row overwrite k e d = Dict.insert k (resolved overwrite e (Dict.lookup k d)) d

unfoldable pub import_rows : Bool → Dict CacheEntry → Dict CacheEntry → Dict CacheEntry
import_rows overwrite [] d = d
import_rows overwrite ((k, e) ∷ rows) d = import_rows overwrite rows (import_row overwrite k e d)

pub record Summary : Type 0 where
  pub incoming : ℕ
  pub new : ℕ
  pub already_present : ℕ
  pub applied : ℕ

-- `len(keys - have)` and `len(keys & have)`
unfoldable pub count_new : Dict CacheEntry → Dict CacheEntry → ℕ
count_new [] have = 0
count_new ((k, e) ∷ rows) have =
    let rest = count_new rows have in if is_some (Dict.lookup k have) then rest else 1 + rest

unfoldable pub count_present : Dict CacheEntry → Dict CacheEntry → ℕ
count_present [] have = 0
count_present ((k, e) ∷ rows) have =
    let rest = count_present rows have in if is_some (Dict.lookup k have) then 1 + rest else rest

abbrev dry : Dict CacheEntry → Option (Dict CacheEntry) → Option Summary
dry rows none = none
dry rows (some have) = some (record {
  incoming = length rows;
  new = count_new rows have;
  already_present = count_present rows have;
  applied = 0;
})

abbrev merged :
    Bool → Dict CacheEntry → Option (Dict CacheEntry) → Option (Dict CacheEntry × Summary)
merged overwrite rows none = none
merged overwrite rows (some d) =
    let after = import_rows overwrite rows d in
    let added = length after - length d in
    some (
      after,
      record {
        incoming = length rows;
        new = added;
        already_present = length rows - added;
        applied = length rows;
      },
    )

abbrev dry_of : Database → Option (Dict CacheEntry) → Option Summary
dry_of db none = none
dry_of db (some rows) = dry rows (open_source db)

abbrev merged_of : Bool → Database → Option (Dict CacheEntry) → Option (Dict CacheEntry × Summary)
merged_of overwrite db none = none
merged_of overwrite db (some rows) = merged overwrite rows (open_target db)

-- `import_` with and without `dry_run`
unfoldable pub import_dry : Database → Database → Option Summary
import_dry db file = dry_of db (open_source file)

unfoldable pub import_ : Database → Database → Bool → Option (Dict CacheEntry × Summary)
import_ db file overwrite = merged_of overwrite db (open_source file)
