-- ===== src/Worker/StepCheckpoint/Backend.antt =====
-- Which store `build_step_checkpoint_store` of bf_worker/services/step_checkpoint.py builds from the
-- argument and the environment, and the end of a run, `purge_run_records`. That the directory can be
-- written is an answer of the file system.
use dev_harness.Base.{ℕ, ◌≡◌, refl, ◌∙◌, ◌≢◌, ℤ, Bool, Option, none, some, [], ◌∷◌, if◌then◌else◌}
use dev_harness.Base.Text.{Text, codes, text_eq, ne→text_eq, strip, lower, parse_int}
use dev_harness.Worker.StepCheckpoint.{Content, load, purge_run, safe, file_name, absent}
use dev_harness.Worker.StepCheckpoint.Disk.{Files, read, is_under_self, read-rmtree}

-- `a or b` of texts that may be missing
abbrev pub first_set : Option Text → Text → Text
first_set none b = b
first_set (some []) b = b
first_set (some (c ∷ s)) b = c ∷ s

pub data Store : Type 0 where
  noop_store : Store
  file_store : ℤ → Store

-- `none` is the error that is raised at the start.
unfoldable pub build_file_store : Option Text → Bool → Option Store
build_file_store ttl_env writable = elim (parse_int (first_set ttl_env (codes "14400"))) [
  | none ↦ none
  | some ttl_s ↦ if writable then some (file_store ttl_s) else none
]

-- `build_step_checkpoint_store`
unfoldable pub build_step_checkpoint_store :
    Option Text → Option Text → Option Text → Bool → Option Store
unfolding build_file_store lower
build_step_checkpoint_store backend backend_env ttl_env writable =
    let chosen = lower (strip (first_set backend (first_set backend_env (codes "none")))) in
    if text_eq chosen (codes "none")
    then some noop_store
    else if text_eq chosen (codes "file")
    then build_file_store ttl_env writable
    else none

-- The part of `purge_run_records` after the store was built, or was not.
unfoldable pub purge_from : (Text → Text) → Option Store → Text → Files Content → Files Content
purge_from digest none run_key files = files
purge_from digest (some noop_store) run_key files = files
purge_from digest (some (file_store ttl_s)) run_key files = purge_run digest run_key files

-- `purge_run_records`
unfoldable pub purge_run_records :
    (Text → Text) → Option Text → Option Text → Bool → Text → Files Content → Files Content
unfolding purge_from build_step_checkpoint_store
purge_run_records digest backend_env ttl_env writable run_key files =
    if text_eq run_key []
    then files
    else purge_from digest (build_step_checkpoint_store none backend_env ttl_env writable) run_key
        files

module _ (digest : Text → Text) (to_float : Text → Option ℕ) (run_key : Text)
    (files : Files Content) where
  load-purge_run :
      (ttl_s now : ℕ) (name : Text)
      → load digest to_float ttl_s now run_key name (purge_run digest run_key files)
        ≡ (absent, purge_run digest run_key files)
  unfolding load purge_run
  load-purge_run ttl_s now name =
      let gone : read (safe digest run_key) (file_name name) (purge_run digest run_key files)
          ≡ none =
        read-rmtree _ _ _ files ∙ rw (is_under_self (safe digest run_key)) refl in
      rw (gone, load) refl

  -- At the end of a run whose environment selects the file store, its records are gone: every later load
  -- of the run, whatever the name, the clock and the time to live, finds nothing.
  pub load-purge_run_records :
      (backend_env ttl_env : Option Text) (writable : Bool) (ttl : ℤ) (ttl_s now : ℕ) (name : Text)
      → run_key ≢ []
      → build_step_checkpoint_store none backend_env ttl_env writable ≡ some (file_store ttl)
      → load digest to_float ttl_s now run_key name
          (purge_run_records digest backend_env ttl_env writable run_key files)
        ≡ (absent, purge_run_records digest backend_env ttl_env writable run_key files)
  unfolding purge_run_records purge_from
  load-purge_run_records backend_env ttl_env writable ttl ttl_s now name nonempty selected =
      rw (ne→text_eq run_key [] nonempty, selected) (load-purge_run ttl_s now name)
