-- ===== src/Worker/GuardTests.antt =====
-- Runs of the guards.
use dev_harness.Base.{◌≡◌, refl, none, some, [], ◌∷◌, List, length, ◌≤◌, All}
use dev_harness.Base.Text.{Text, codes, starts_with}
use dev_harness.Base.Split.{split_on, join}
use dev_harness.Worker.Guards.{validate_fetch_path, validate_patch_scope, denied}
use dev_harness.Worker.Guards.Globs.{matches, pieces}
use dev_harness.Worker.Guards.Fetch.{Readable, validate_fetch_path-Readable}
use dev_harness.Worker.Guards.Patch.{Writable, validate_patch_scope_lem, edits}

reads : validate_fetch_path (codes "src/./a.py") ≡ none
unfolding validate_fetch_path split_on join starts_with matches pieces
reads = refl

git_is_denied :
    validate_fetch_path (codes ".git/config") ≡ some (denied (codes ".git") (codes ".git/config"))
unfolding validate_fetch_path split_on join starts_with matches pieces
git_is_denied = refl

-- A directory below the root is not matched on its own.
nested_git_passes : validate_fetch_path (codes "deep/.git/config") ≡ none
unfolding validate_fetch_path split_on join starts_with matches pieces
nested_git_passes = refl

validate_fetch_path-Readable_example : Readable (codes "src/./a.py")
validate_fetch_path-Readable_example = (validate_fetch_path-Readable (codes "src/./a.py")).0 reads

abbrev patch : List (Text × List Text)
patch = (codes "a.py", codes "x" ∷ codes "y" ∷ []) ∷ []

written : validate_patch_scope some 5 50 patch ≡ none
unfolding validate_patch_scope split_on join starts_with matches pieces
written = refl

validate_patch_scope_lem_example :
    (length patch ≤ 5) × All (λ file. Writable some file.0) patch × (edits some patch ≤ 50)
validate_patch_scope_lem_example = (validate_patch_scope_lem some 5 50 patch).0 written
