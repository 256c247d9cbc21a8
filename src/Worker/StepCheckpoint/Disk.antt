-- ===== src/Worker/StepCheckpoint/Disk.antt =====
-- The files below the root of the store, each in a directory of its own.
use dev_harness.Base.{
  ◌≡◌, ◌≢◌, refl, ap, inl, inr, Bool, true, false, not, ◌&&◌, Option, none, some, List, [], ◌∷◌,
  if◌then◌else◌, arith, Bool-cases,
}
use dev_harness.Base.Text.{Text, codes, text_eq, text_iff, text_eq_refl, ne→text_eq}

pub record File {ℓ} (C : Type ℓ) : Type ℓ where
  pub directory : Text
  pub name : Text
  pub content : C

abbrev pub Files {ℓ} : Type ℓ → Type ℓ
Files C = List (File C)

-- Whether a file of `inner` lies below the root's `directory`: `.` is the root itself, and `..` the
-- directory that holds it.
unfoldable pub is_under : Text → Text → Bool
is_under directory inner =
    if text_eq directory (codes "..")
    then true
    else if text_eq directory (codes ".")
    then not (text_eq inner (codes ".."))
    else text_eq inner directory

pub is_under_self : (d : Text) → is_under d d ≡ true
unfolding is_under
is_under_self d = elim (Bool-cases (text_eq d (codes ".."))) [
  | inl e ↦ rw e refl
  | inr e ↦ elim (Bool-cases (text_eq d (codes "."))) [
    | inl e' ↦ rw (e, e') refl
    | inr e' ↦ rw (e, e', text_eq_refl d) refl
  ]
]

pub is_under_plain : (d e : Text) → d ≢ codes "." → d ≢ codes ".." → is_under d e ≡ text_eq d e
unfolding is_under
is_under_plain d e dot dots =
    rw (ne→text_eq d (codes "..") dots, ne→text_eq d (codes ".") dot)
      (ground (arith, text_iff d e, text_iff e d))

module _ {ℓ} {C : Type ℓ} where
  unfoldable pub is_at : Text → Text → File C → Bool
  is_at directory name file = text_eq file.directory directory && text_eq file.name name

  unfoldable pub read : Text → Text → Files C → Option C
  unfolding is_at
  read directory name [] = none
  read directory name (file ∷ files) =
      let rest = read directory name files in
      if is_at directory name file then some file.content else rest

  unfoldable pub unlink : Text → Text → Files C → Files C
  unfolding is_at
  unlink directory name [] = []
  unlink directory name (file ∷ files) =
      let rest = unlink directory name files in
      if is_at directory name file then rest else file ∷ rest

  -- A new file takes the place of the old one at once.
  unfoldable pub write : Text → Text → C → Files C → Files C
  unfolding unlink
  write directory name content files =
      record { directory = directory; name = name; content = content } ∷ unlink directory name files

  -- `shutil.rmtree`
  unfoldable pub rmtree : Text → Files C → Files C
  rmtree directory [] = []
  rmtree directory (file ∷ files) =
      let rest = rmtree directory files in
      if is_under directory file.directory then rest else file ∷ rest

  read-unlink :
      (d e n m : Text) (files : Files C)
      → text_eq d e && text_eq n m ≡ false
      → read e m (unlink d n files) ≡ read e m files
  unfolding read unlink is_at
  read-unlink d e n m [] h = refl
  read-unlink d e n m (file ∷ files) h = ground (
    arith,
    text_iff file.directory d,
    text_iff file.directory e,
    text_iff d e,
    text_iff file.name n,
    text_iff file.name m,
    text_iff n m,
    read-unlink d e n m files,
  )

  pub read-write :
      (d e n m : Text) (content : C) (files : Files C)
      → read e m (write d n content files)
        ≡ (if text_eq d e && text_eq n m then some content else read e m files)
  unfolding read write is_at
  read-write d e n m content files = ground (arith, read-unlink d e n m files)

  pub read-rmtree :
      (d e m : Text) (files : Files C)
      → read e m (rmtree d files) ≡ (if is_under d e then none else read e m files)
  unfolding read rmtree is_at
  read-rmtree d e m [] = ground arith
  read-rmtree d e m (file ∷ files) = elim (Bool-cases (text_eq file.directory e)) [
    | inl q ↦
        let same : is_under d file.directory ≡ is_under d e =
          ap (is_under d) ((text_iff file.directory e).0 q) in
        ground (arith, q, same, read-rmtree d e m files)
    | inr q ↦ ground (arith, q, read-rmtree d e m files)
  ]
