-- ===== src/Worker/Guards/Patch.antt =====
-- What `validate_patch_scope` of bf_worker/services/patch_guard.py lets a patch write.
use dev_harness.Base.{
  ℕ, ◌+◌, ◌≤◌, ◌≡◌, refl, ap, ◌∙◌, ◌↔◌, ◌≢◌, ◌⊎◌, inl, inr, Option, some, none, false, List, [],
  ◌∷◌, All, length, ltb, arith, if-none, none-if, Option-cases, if◌then◌else◌,
}
use dev_harness.Base.Text.{Text, text_eq→ne, ne→text_eq}
use dev_harness.Worker.Guards.{
  is_absolute_path, check_file, check_files, denied_by, validate_patch_scope, ScopeError, escapes,
  too_many_lines, too_many_files,
}
use dev_harness.Worker.Guards.Denied.{Harmless, denied_by-none, Harmless-denied_by}

-- A file that a patch may write: a relative path that the file system resolves inside the repository,
-- to a path that is not sensitive.
pub Writable : (Text → Option Text) → Text → Type 0
Writable resolve path =
    (path ≢ [])
    × (is_absolute_path path ≡ false)
    × ((rel_posix : Text) × (resolve path ≡ some rel_posix) × Harmless rel_posix)

check_file→Writable :
    (resolve : Text → Option Text) (path : Text)
    → check_file resolve path ≡ none
    → Writable resolve path
unfolding check_file Writable
check_file→Writable resolve path h =
    let h1 = if-none _ _ _ h in
    let h2 = if-none _ _ _ h1.1 in (text_eq→ne path [] h1.0, h2.0, inside (resolve path) refl h2.1)
  where
    inside :
        (o : Option Text)
        → resolve path ≡ o
        → (elim o [ none ↦ some (escapes path) | some rel_posix ↦ denied_by rel_posix ]) ≡ none
        → (rel_posix : Text) × (resolve path ≡ some rel_posix) × Harmless rel_posix
    inside none e bad = cc
    inside (some rel_posix) e passed = (rel_posix, e, denied_by-none rel_posix passed)

Writable→check_file :
    (resolve : Text → Option Text) (path : Text)
    → Writable resolve path
    → check_file resolve path ≡ none
unfolding check_file Writable
Writable→check_file resolve path (nonempty, relative, (rel_posix, e, harmless)) =
    none-if _ _ _ (ne→text_eq path [] nonempty)
      (none-if _ _ _ relative (rw e (Harmless-denied_by rel_posix harmless)))

module _ {ℓ} {A : Type ℓ} (resolve : Text → Option Text) where
  -- The edits of all files.
  pub edits : List (Text × List A) → ℕ
  edits [] = 0
  edits ((path, fixes) ∷ files) = length fixes + edits files

  files_pass :
      (total : ℕ) (files : List (Text × List A))
      → All (λ file. Writable resolve file.0) files
      → check_files resolve total files ≡ inr (total + edits files)
  unfolding check_files edits
  files_pass total [] h = ap inr (omega arith)
  files_pass total ((path, fixes) ∷ files) h =
      rw (Writable→check_file resolve path h.0, check_files)
        (files_pass (total + length fixes) files h.1 ∙ ap inr (omega arith))

  passed :
      (total n : ℕ) (files : List (Text × List A))
      → check_files resolve total files ≡ inr n
      → All (λ file. Writable resolve file.0) files × (n ≡ total + edits files)
  unfolding check_files edits
  passed total n [] h =
      (tt, let same : inr total ≡ inr n = h in let eq : total ≡ n = cc in omega arith)
  passed total n ((path, fixes) ∷ files) h = elim (Option-cases (check_file resolve path)) [
    | inl e ↦
        let rest = passed (total + length fixes) n files (rw (e, check_files) at h) in
        ((check_file→Writable resolve path e, rest.0), omega (arith, rest.1))
    | inr (error, e) ↦ absurd (let bad : inl error ≡ inr n = rw (e, check_files) at h in cc)
  ]

  -- A patch is accepted exactly if it has at most `max_files` files, each of which it may write, and at
  -- most `max_lines` edits in all.
  pub validate_patch_scope_lem :
      (max_files max_lines : ℕ) (files : List (Text × List A))
      → (validate_patch_scope resolve max_files max_lines files ≡ none) ↔ (
          (length files ≤ max_files)
          × All (λ file. Writable resolve file.0) files
          × (edits files ≤ max_lines))
  unfolding validate_patch_scope
  validate_patch_scope_lem max_files max_lines files = (
    λ h.
        let h1 = if-none (ltb max_files (length files)) (too_many_files (length files)) _ h in
        let few : length files ≤ max_files = ground (arith, h1.0) in
        after (check_files resolve 0 files) refl few h1.1,
    λ (few, writable, small).
        let pass = files_pass 0 files writable in
        let small_test : ltb max_lines (0 + edits files) ≡ false = ground arith in
        let few_test : ltb max_files (length files) ≡ false = ground arith in
        none-if (ltb max_files (length files)) (too_many_files (length files)) _ few_test
          (rw (pass, check_files) (none-if _ _ _ small_test refl)),
  )
    where
      after :
          (r : ScopeError ⊎ ℕ)
          → check_files resolve 0 files ≡ r
          → length files ≤ max_files
          → (elim r [
            | inl error ↦ some error
            | inr total ↦ if ltb max_lines total then some (too_many_lines total) else none
          ])
            ≡ none
          → (length files ≤ max_files)
            × All (λ file. Writable resolve file.0) files
            × (edits files ≤ max_lines)
      after (inl error) e few bad = cc
      after (inr total) e few within =
          let ok = passed 0 total files e in
          let small : (ltb max_lines total ≡ false) × (none ≡ none) =
            if-none (ltb max_lines total) (too_many_lines total) none within in
          (few, ok.0, ground arith)
