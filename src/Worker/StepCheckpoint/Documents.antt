-- ===== src/Worker/StepCheckpoint/Documents.antt =====
-- A document of bf_worker/services/step_checkpoint.py that is saved and loaded again.
use dev_harness.Base.{ℕ, ◌-◌, ◌≡◌, refl, ◌∙◌, Bool, false, ◌&&◌, Option, some, ltb, if◌then◌else◌}
use dev_harness.Base.Dict
use dev_harness.Base.Dict.{lookup-insert}
use dev_harness.Base.Json.{number}
use dev_harness.Base.Text.{Text, text_eq_refl}
use dev_harness.Worker.StepCheckpoint.{
  Document, Content, document, found, absent, payload, is_schema, saved_at, examine, load, save,
  safe, file_name, purge_run,
}
use dev_harness.Worker.StepCheckpoint.Disk.{Files, read, read-write}

schema-payload : (doc : Document) (at : ℕ) → Dict.lookup "schema" (payload doc at) ≡ some (number 1)
unfolding payload
schema-payload doc at =
    lookup-insert "updated_at" "schema" (number at) _
    ∙ lookup-insert "schema" "schema" (number 1) doc

updated_at-payload :
    (doc : Document) (at : ℕ) → Dict.lookup "updated_at" (payload doc at) ≡ some (number at)
unfolding payload
updated_at-payload doc at = lookup-insert "updated_at" "updated_at" (number at) _

-- The document is older than the time to live, which 0 switches off.
abbrev pub is_expired : ℕ → ℕ → ℕ → Bool
is_expired ttl_s now at = ltb 0 ttl_s && ltb ttl_s (now - at)

module _ (digest : Text → Text) (at : ℕ) (run_key name : Text) (doc : Document)
    (files : Files Content) where
  read-save :
      read (safe digest run_key) (file_name name) (save digest at run_key name doc files)
      ≡ some (document (payload doc at))
  unfolding save
  read-save =
      read-write _ _ _ _ (document (payload doc at)) files
      ∙ rw (text_eq_refl (safe digest run_key), text_eq_refl (file_name name)) refl

module _ (digest : Text → Text) (to_float : Text → Option ℕ) (ttl_s now at : ℕ) (run_key : Text)
    (doc : Document) where
  pub examine-payload :
      (files : Files Content)
      → examine digest to_float ttl_s now run_key (document (payload doc at)) files ≡ (
          if is_expired ttl_s now at
          then (absent, purge_run digest run_key files)
          else (found (payload doc at), files))
  unfolding examine is_schema saved_at
  examine-payload files = rw (schema-payload doc at, updated_at-payload doc at) refl

  -- The store reads and examines the file.
  pub load-read :
      (name : Text) (content : Content) (files : Files Content)
      → read (safe digest run_key) (file_name name) files ≡ some content
      → load digest to_float ttl_s now run_key name files
        ≡ examine digest to_float ttl_s now run_key content files
  unfolding load
  load-read name content files e = rw (e, load) refl

  -- A document that was saved is what `load` finds under the same key and name, as long as it is not older
  -- than the time to live, with its schema and the time set, and loading changes no file.
  pub load-save :
      (name : Text) (files : Files Content)
      → is_expired ttl_s now at ≡ false
      → load digest to_float ttl_s now run_key name (save digest at run_key name doc files)
        ≡ (found (payload doc at), save digest at run_key name doc files)
  load-save name files fresh =
      load-read name _ _ (read-save digest at run_key name doc files)
      ∙ examine-payload (save digest at run_key name doc files)
      ∙ rw fresh refl
