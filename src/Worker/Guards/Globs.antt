-- ===== src/Worker/Guards/Globs.antt =====
-- `fnmatch.fnmatchcase` for the globs of bf_worker/services/patch_guard.py, whose only wildcard is `*`,
-- which stands for any characters, slashes too.
use dev_harness.Base.{
  ℕ, ◌≡◌, refl, ap, inl, inr, Bool, true, false, ◌&&◌, ◌||◌, List, [], ◌∷◌, ◌++◌, arith, ◌==◌,
  if◌then◌else◌, Bool-cases,
}
use dev_harness.Base.Text.{Text}

pub data Piece : Type 0 where
  anything : Piece
  letter : ℕ → Piece

unfoldable pub pieces : Text → List Piece
pieces [] = []
pieces (c ∷ glob) = (if c == 42 then anything else letter c) ∷ pieces glob

-- Some end of the text passes the test.
any_end : (Text → Bool) → Text → Bool
any_end f [] = f []
any_end f (c ∷ s) = f (c ∷ s) || any_end f s

next_is : ℕ → (Text → Bool) → Text → Bool
next_is c f [] = false
next_is c f (d ∷ s) = c == d && f s

unfoldable pub matches : List Piece → Text → Bool
unfolding any_end next_is
matches [] [] = true
matches [] (c ∷ s) = false
matches (anything ∷ glob) s = any_end (matches glob) s
matches (letter c ∷ glob) s = next_is c (matches glob) s

-- The texts that a glob stands for.
pub Glob : List Piece → Text → Type 0
Glob [] s = s ≡ []
Glob (anything ∷ glob) s = (skipped : Text) × (rest : Text) × (s ≡ skipped ++ rest) × Glob glob rest
Glob (letter c ∷ glob) s = (rest : Text) × (s ≡ c ∷ rest) × Glob glob rest

any_end→split :
    (f : Text → Bool) (s : Text)
    → any_end f s ≡ true
    → (skipped : Text) × (rest : Text) × (s ≡ skipped ++ rest) × (f rest ≡ true)
unfolding any_end
any_end→split f [] h = ([], [], refl, h)
any_end→split f (c ∷ s) h = elim (Bool-cases (f (c ∷ s))) [
  | inl e ↦ ([], c ∷ s, refl, e)
  | inr e ↦
      let deeper = any_end→split f s (rw e at h) in
      (c ∷ deeper.0, deeper.1, ap (λ t. c ∷ t) deeper.2, deeper.3)
]

split→any_end :
    (f : Text → Bool) (skipped rest : Text) → f rest ≡ true → any_end f (skipped ++ rest) ≡ true
unfolding any_end
split→any_end f [] [] h = h
split→any_end f [] (c ∷ rest) h = ground (arith, h)
split→any_end f (c ∷ skipped) rest h = ground (arith, split→any_end f skipped rest h)

pub matches→Glob : (glob : List Piece) (s : Text) → matches glob s ≡ true → Glob glob s
unfolding matches Glob next_is
matches→Glob [] [] h = refl
matches→Glob [] (c ∷ s) h = cc
matches→Glob (anything ∷ glob) s h =
    let found = any_end→split (matches glob) s h in
    (found.0, found.1, found.2, matches→Glob glob found.1 found.3)
matches→Glob (letter c ∷ glob) [] h = cc
matches→Glob (letter c ∷ glob) (d ∷ s) h =
    let same : d ≡ c = ground arith in
    let rest : matches glob s ≡ true = ground arith in
    (s, ap (λ x. x ∷ s) same, matches→Glob glob s rest)

pub Glob→matches : (glob : List Piece) (s : Text) → Glob glob s → matches glob s ≡ true
unfolding matches Glob next_is
Glob→matches [] s h = rw h refl
Glob→matches (anything ∷ glob) s (skipped, rest, e, h) =
    rw e (split→any_end (matches glob) skipped rest (Glob→matches glob rest h))
Glob→matches (letter c ∷ glob) s (rest, e, h) = rw e (ground (arith, Glob→matches glob rest h))
