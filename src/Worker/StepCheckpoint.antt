-- ===== src/Worker/StepCheckpoint.antt =====
-- bf_worker/services/step_checkpoint.py: the documents that a run of the agent leaves, so that another
-- process can go on. `digest` are the first eight hexadecimal digits of SHA-256, and `to_float` is
-- `float` of a text; the clock counts in whole units. A name of a directory is taken as it is, also
-- `.` and `..`.
pub mod Disk
pub mod Documents
pub mod Runs
pub mod Backend
use dev_harness.Base.{
  ℕ, suc, ◌-◌, ℤ, pos, negsuc, Bool, true, false, not, ◌&&◌, ◌||◌, Option, none, some, List, [],
  ◌∷◌, ◌++◌, String, ◌==◌, ltb, leb, take, if◌then◌else◌, map, any,
}
use dev_harness.Base.Dict
use dev_harness.Base.Dict.{Dict}
use dev_harness.Base.Json.{
  Json, null, bool, number, str, array, object, nil, cons, no_fields, member,
}
use dev_harness.Base.Text.{Text, codes, text_eq, strip, parse_int}
use dev_harness.Worker.StepCheckpoint.Disk.{Files, read, write, rmtree}

abbrev pub Document : Type 0
Document = Dict Json

-- What a file holds: JSON with an object or something else at the top, or no JSON.
pub data Content : Type 0 where
  document : Document → Content
  no_object unreadable : Content

unfoldable pub is_safe : ℕ → Bool
is_safe c =
    (leb 65 c && leb c 90)
    || (leb 97 c && leb c 122)
    || (leb 48 c && leb c 57)
    || c == 46
    || c == 95
    || c == 45

-- `_UNSAFE.sub("_", s)`
unfoldable pub sanitise : Text → Text
unfolding is_safe
sanitise s = map (λ c. if is_safe c then c else 95) s

-- `_safe`
unfoldable pub safe : (Text → Text) → Text → Text
unfolding sanitise
safe digest run_key =
    let short = take 120 (sanitise run_key) in
    let name = if text_eq short run_key then short else short ++ (45 ∷ digest run_key) in
    if text_eq name [] then codes "unnamed" else name

-- The name of `_path`
unfoldable pub file_name : Text → Text
unfolding sanitise
file_name name = sanitise name ++ codes ".json"

pub data Loaded : Type 0 where
  absent raises : Loaded
  found : Document → Loaded

unfoldable pub is_schema : Option Json → Bool
is_schema none = false
is_schema (some null) = false
is_schema (some (bool b)) = b
is_schema (some (number n)) = n == 1
is_schema (some (str s)) = false
is_schema (some (array l)) = false
is_schema (some (object ms)) = false

-- `float(doc.get("updated_at") or 0)`, where `none` is the error that it raises
unfoldable pub saved_at : (Text → Option ℕ) → Option Json → Option ℕ
saved_at to_float none = some 0
saved_at to_float (some null) = some 0
saved_at to_float (some (bool b)) = some (if b then 1 else 0)
saved_at to_float (some (number n)) = some n
saved_at to_float (some (str [])) = some 0
saved_at to_float (some (str (c ∷ s))) = to_float (c ∷ s)
saved_at to_float (some (array nil)) = some 0
saved_at to_float (some (array (cons j l))) = none
saved_at to_float (some (object no_fields)) = some 0
saved_at to_float (some (object (member k j rest))) = none

-- `payload` of `save`
unfoldable pub payload : Document → ℕ → Document
payload doc now = Dict.insert "updated_at" (number now) (Dict.insert "schema" (number 1) doc)

module _ (digest : Text → Text) where
  -- `FileStore.purge_run`
  unfoldable pub purge_run : Text → Files Content → Files Content
  unfolding safe
  purge_run run_key files = rmtree (safe digest run_key) files

  -- `FileStore.save`
  unfoldable pub save : ℕ → Text → Text → Document → Files Content → Files Content
  unfolding safe file_name payload
  save now run_key name doc files =
      write (safe digest run_key) (file_name name) (document (payload doc now)) files

module _ (digest : Text → Text) (to_float : Text → Option ℕ) where
  -- The part of `FileStore.load` after the file was read.
  unfoldable pub examine : ℕ → ℕ → Text → Content → Files Content → Loaded × Files Content
  unfolding purge_run is_schema saved_at
  examine ttl_s now run_key unreadable files = (absent, files)
  examine ttl_s now run_key no_object files = (raises, files)
  examine ttl_s now run_key (document doc) files =
      if not (is_schema (Dict.lookup "schema" doc))
      then (absent, files)
      else elim (saved_at to_float (Dict.lookup "updated_at" doc)) [
        | none ↦ (raises, files)
        | some at ↦
            if ltb 0 ttl_s && ltb ttl_s (now - at)
            then (absent, purge_run digest run_key files)
            else (found doc, files)
      ]

  -- `FileStore.load`
  unfoldable pub load : ℕ → ℕ → Text → Text → Files Content → Loaded × Files Content
  unfolding examine safe file_name
  load ttl_s now run_key name files = elim (read (safe digest run_key) (file_name name) files) [
    | none ↦ (absent, files)
    | some content ↦ examine ttl_s now run_key content files
  ]
