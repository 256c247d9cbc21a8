-- ===== src/Orchestrator/Parser/Branches.antt =====
-- Texts of the shape of a pattern of orchestrator/parser.py.
use dev_harness.Base.{ℕ, ◌≡◌, refl, Bool, true, some, List, [], ◌∷◌, ◌++◌}
use dev_harness.Base.Text.{Text}
use dev_harness.Orchestrator.Parser.{Class, is_in, run}

module _ (is_digit : ℕ → Bool) where
  -- Every character is in the class at its place.
  abbrev pub Shaped : List Class → Text → Type 0
  Shaped [] [] = Unit
  Shaped [] (c ∷ s) = ⊥
  Shaped (x ∷ xs) [] = ⊥
  Shaped (x ∷ xs) (c ∷ s) = (is_in is_digit x c ≡ true) × Shaped xs s

  -- The classes match such a text as it stands before others.
  pub run-Shaped :
      (xs : List Class) (s rest : Text) → Shaped xs s → run is_digit xs (s ++ rest) ≡ some (s, rest)
  unfolding run
  run-Shaped [] [] rest h = refl
  run-Shaped [] (c ∷ s) rest h = absurd h
  run-Shaped (x ∷ xs) [] rest h = absurd h
  run-Shaped (x ∷ xs) (c ∷ s) rest h = rw (h.0, run-Shaped xs s rest h.1) refl

  pub Shaped-append :
      (xs ys : List Class) (s t : Text) → Shaped xs s → Shaped ys t → Shaped (xs ++ ys) (s ++ t)
  Shaped-append [] ys [] t h g = g
  Shaped-append [] ys (c ∷ s) t h g = absurd h
  Shaped-append (x ∷ xs) ys [] t h g = absurd h
  Shaped-append (x ∷ xs) ys (c ∷ s) t h g = (h.0, Shaped-append xs ys s t h.1 g)
