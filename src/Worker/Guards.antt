-- ===== src/Worker/Guards.antt =====
-- bf_worker/services/patch_guard.py and fetch_guard.py: which files a patch may write, and which paths
-- the model may read. `resolve` is the file system: the path of a file from the root of the repository,
-- symbolic links followed, or `none` outside of it.
pub mod Globs
pub mod Denied
pub mod Fetch
pub mod Patch
use dev_harness.Base.{
  ℕ, suc, ◌+◌, Bool, true, false, not, ◌&&◌, ◌||◌, Option, none, some, List, [], ◌∷◌, ◌++◌, String,
  ◌==◌, ltb, ◌⊎◌, inl, inr, length, map, any, if◌then◌else◌, str_eq,
}
use dev_harness.Base.Text.{Text, codes, text_eq, starts_with}
use dev_harness.Base.Split.{split_on, join}
use dev_harness.Worker.Guards.Globs.{matches, pieces}

abbrev pub slash : ℕ
slash = 47

abbrev pub backslash : ℕ
backslash = 92

abbrev pub deny_globs : List Text
deny_globs =
    codes ".env"
    ∷ codes ".env.*"
    ∷ codes "*.env"
    ∷ codes ".git"
    ∷ codes ".git/*"
    ∷ codes ".ssh"
    ∷ codes ".ssh/*"
    ∷ codes "id_rsa"
    ∷ codes "id_rsa.*"
    ∷ codes "id_dsa"
    ∷ codes "id_ecdsa"
    ∷ codes "id_ed25519"
    ∷ codes "id_ed25519.*"
    ∷ codes "*.pem"
    ∷ codes "*.key"
    ∷ codes "*.p12"
    ∷ codes "*.pfx"
    ∷ codes ".aws/*"
    ∷ codes ".gnupg/*"
    ∷ codes "credentials"
    ∷ codes "credentials.*"
    ∷ codes "*credentials*"
    ∷ codes "secrets"
    ∷ codes "secrets.*"
    ∷ codes "*secrets*"
    ∷ []

-- `fnmatch.fnmatchcase(s, glob)`
unfoldable pub fits : Text → Text → Bool
fits s glob = matches (pieces glob) s

-- The first glob of the list that passes the test.
unfoldable pub first_glob : (Text → Bool) → List Text → Option Text
first_glob f [] = none
first_glob f (glob ∷ globs) = let rest = first_glob f globs in if f glob then some glob else rest

unfoldable pub first_of : List Text → List Text → Option Text
unfolding first_glob fits
first_of globs [] = none
first_of globs (candidate ∷ candidates) = elim (first_glob (fits candidate) globs) [
  | some glob ↦ some glob
  | none ↦ first_of globs candidates
]

-- The path and its parents, the topmost first; `before` is the path so far.
unfoldable pub candidates : List Text → List Text → List Text
candidates before [] = []
candidates before (part ∷ parts) =
    join slash (before ++ (part ∷ [])) ∷ candidates (before ++ (part ∷ [])) parts

-- `parts[-1]`
unfoldable pub basename : List Text → Text
basename [] = []
basename (part ∷ []) = part
basename (part ∷ next ∷ parts) = basename (next ∷ parts)

unfoldable pub base_fits : Text → Text → Bool
unfolding fits
base_fits base glob = not (any (λ c. c == slash) glob) && fits base glob

-- `matches_deny`
unfoldable pub matches_deny : Text → Option Text
unfolding first_of candidates basename first_glob base_fits
matches_deny rel_posix =
    let parts = split_on slash rel_posix in
    elim (first_of deny_globs (candidates [] parts)) [
      | some glob ↦ some glob
      | none ↦ first_glob (base_fits (basename parts)) deny_globs
    ]

second_is : ℕ → Text → Bool
second_is c [] = false
second_is c (x ∷ []) = false
second_is c (x ∷ y ∷ s) = y == c

-- `_is_absolute_path`, where `Path.is_absolute` is the one of POSIX
unfoldable pub is_absolute_path : Text → Bool
unfolding second_is
is_absolute_path path =
    starts_with path (slash ∷ []) || starts_with path (backslash ∷ []) || second_is 58 path

pub data ScopeError : Type 0 where
  invalid_path absolute_path parent_segment escapes : Text → ScopeError
  denied : Text → Text → ScopeError
  too_many_files too_many_lines : ℕ → ScopeError

-- The error of a path on the deny list.
unfoldable pub denied_by : Text → Option ScopeError
unfolding matches_deny
denied_by rel_posix = elim (matches_deny rel_posix) [
  | none ↦ none
  | some glob ↦ some (denied glob rel_posix)
]

-- The separators of Windows become slashes.
unfoldable pub slashes : Text → Text
slashes s = map (λ c. if c == backslash then slash else c) s

abbrev pub dot_dot : Text
dot_dot = codes ".."

-- `"/".join(p for p in parts if p not in ("", "."))`
unfoldable pub clean : List Text → List Text
clean [] = []
clean (part ∷ parts) =
    let rest = clean parts in
    if text_eq part [] || text_eq part (codes ".") then rest else part ∷ rest

-- `validate_fetch_path`: the error it raises, or none.
unfoldable pub validate_fetch_path : Text → Option ScopeError
unfolding denied_by is_absolute_path slashes clean
validate_fetch_path rel_path =
    let parts = split_on slash (slashes rel_path) in
    let rel_posix = join slash (clean parts) in
    if text_eq rel_path []
    then some (invalid_path rel_path)
    else if is_absolute_path rel_path
    then some (absolute_path rel_path)
    else if any (λ p. text_eq p dot_dot) parts
    then some (parent_segment rel_path)
    else if text_eq rel_posix []
    then some (invalid_path rel_path)
    else denied_by rel_posix

-- The checks of one file of `validate_patch_scope`.
unfoldable pub check_file : (Text → Option Text) → Text → Option ScopeError
unfolding denied_by is_absolute_path
check_file resolve rel_path =
    if text_eq rel_path []
    then some (invalid_path rel_path)
    else if is_absolute_path rel_path
    then some (absolute_path rel_path)
    else elim (resolve rel_path) [
      | none ↦ some (escapes rel_path)
      | some rel_posix ↦ denied_by rel_posix
    ]

module _ {ℓ} {A : Type ℓ} where
  -- The loop over the files: an error, or the number of edits.
  unfoldable pub check_files : (Text → Option Text) → ℕ → List (Text × List A) → ScopeError ⊎ ℕ
  unfolding check_file
  check_files resolve total [] = inr total
  check_files resolve total ((rel_path, fixes) ∷ files) = elim (check_file resolve rel_path) [
    | some error ↦ inl error
    | none ↦ check_files resolve (total + length fixes) files
  ]

  -- `validate_patch_scope`: the error it raises, or none.
  unfoldable pub validate_patch_scope :
      (Text → Option Text) → ℕ → ℕ → List (Text × List A) → Option ScopeError
  unfolding check_files
  validate_patch_scope resolve max_files max_lines fixes_by_file =
      if ltb max_files (length fixes_by_file)
      then some (too_many_files (length fixes_by_file))
      else elim (check_files resolve 0 fixes_by_file) [
        | inl error ↦ some error
        | inr total ↦ if ltb max_lines total then some (too_many_lines total) else none
      ]
