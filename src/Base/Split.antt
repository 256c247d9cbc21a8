-- ===== src/Base/Split.antt =====
-- Python's `split` and `join` with a separator of one character.
use mathlib.Core.Path.{◌≡◌, refl, ap, ◌∙◌}
use mathlib.Core.Logic.{◌≢◌, inl, inr}
use mathlib.Core.List.{List, [], ◌∷◌, ◌++◌}
use native.Mathlib.Omega.{arith}
use Prim.Native.Nat.{ℕ}
use dev_harness.Base.Tests.{◌==◌, if◌then◌else◌, Bool-cases}
use dev_harness.Base.Text.{Text}

push : ℕ → List Text → List Text
push c [] = (c ∷ []) ∷ []
push c (part ∷ parts) = (c ∷ part) ∷ parts

-- `s.split(c)`, which has one part at least
unfoldable pub split_on : ℕ → Text → List Text
unfolding push
split_on c [] = [] ∷ []
split_on c (x ∷ s) = let rest = split_on c s in if x == c then [] ∷ rest else push x rest

-- `c.join(parts)`
unfoldable pub join : ℕ → List Text → Text
join c [] = []
join c (part ∷ []) = part
join c (part ∷ next ∷ parts) = part ++ (c ∷ join c (next ∷ parts))

push-join : (c x : ℕ) (parts : List Text) → join c (push x parts) ≡ x ∷ join c parts
unfolding push join
push-join c x [] = refl
push-join c x (part ∷ []) = refl
push-join c x (part ∷ next ∷ parts) = refl

cons-join : (c : ℕ) (parts : List Text) → parts ≢ [] → join c ([] ∷ parts) ≡ c ∷ join c parts
unfolding join
cons-join c [] h = absurd (h refl)
cons-join c (part ∷ parts) h = refl

-- There is a first part.
pub split_on-cons :
    (c : ℕ) (s : Text) → (part : Text) × (parts : List Text) × (split_on c s ≡ part ∷ parts)
unfolding split_on push
split_on-cons c [] = ([], [], refl)
split_on-cons c (x ∷ s) = elim (Bool-cases (x == c)) [
  | inl e ↦ ([], split_on c s, rw e refl)
  | inr e ↦ let rest = split_on-cons c s in (x ∷ rest.0, rest.1, rw e (ap (push x) rest.2))
]

-- To split and to join again gives the text back.
pub join-split_on : (c : ℕ) (s : Text) → join c (split_on c s) ≡ s
unfolding split_on
join-split_on c [] = unfold join in refl
join-split_on c (x ∷ s) = elim (Bool-cases (x == c)) [
  | inl e ↦
      let same : c ≡ x = ground arith in
      rw e (
        cons-join c (split_on c s) (λ h. let first = split_on-cons c s in cc)
        ∙ ap (λ t. c ∷ t) (join-split_on c s)
        ∙ ap (λ y. y ∷ s) same)
  | inr e ↦ rw e (push-join c x (split_on c s) ∙ ap (λ t. x ∷ t) (join-split_on c s))
]
