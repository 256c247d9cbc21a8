-- ===== src/Base/Sorting.antt =====
-- Python's `sorted` of a list of texts, by code points.
use Prim.Native.Nat.{ℕ, suc, ◌<◌, Ordering}
use Prim.Native.String.{String}
use Prim.Native.String as Str
use mathlib.Core.Path.{◌≡◌, refl, sym, ◌∙◌, ap}
use mathlib.Core.Bool.{Bool, true, false, ◌||◌}
use mathlib.Core.Logic.{inl, inr}
use mathlib.Core.Option.{some}
use mathlib.Core.List.{List, [], ◌∷◌}
use native.Mathlib.Omega.{arith}
use text.Mathlib.Text.{◌==◌ as str_eq}
use text.Mathlib.TextEquality.{eq_iff}
use dev_harness.Base.Tests.{if◌then◌else◌, Bool-cases}
use dev_harness.Base.Lists.{length, get_elem?, any}

abbrev not_after : String → String → Bool
not_after a b = elim (Str.compare a b) [ Ordering.gt ↦ false | _ ↦ true ]

insert_sorted : String → List String → List String
insert_sorted x [] = x ∷ []
insert_sorted x (y ∷ ys) =
    let rest = insert_sorted x ys in if not_after x y then x ∷ y ∷ ys else y ∷ rest

unfoldable pub sorted : List String → List String
unfolding insert_sorted
sorted [] = []
sorted (x ∷ xs) = insert_sorted x (sorted xs)

any-insert_sorted :
    (p : String → Bool) (x : String) (ys : List String)
    → any p (insert_sorted x ys) ≡ (p x || any p ys)
unfolding insert_sorted
any-insert_sorted p x [] = refl
any-insert_sorted p x (y ∷ ys) = ground (arith, any-insert_sorted p x ys)

pub any-sorted : (p : String → Bool) (xs : List String) → any p (sorted xs) ≡ any p xs
unfolding sorted
any-sorted p [] = refl
any-sorted p (x ∷ xs) = any-insert_sorted p x (sorted xs) ∙ ap (λ b. p x || b) (any-sorted p xs)

-- A text that is in a list stands at some place of it.
pub any-index :
    (x : String) (xs : List String)
    → any (str_eq x) xs ≡ true
    → (i : ℕ) × (i < length xs) × (get_elem? xs i ≡ some x)
any-index x [] h = cc
any-index x (y ∷ ys) h = elim (Bool-cases (str_eq x y)) [
  | inl e ↦ (0, omega arith, ap some (sym ((eq_iff x y).0 e)))
  | inr e ↦ let (i, lt, at) = any-index x ys (rw e at h) in (suc i, omega (arith, lt), at)
]
