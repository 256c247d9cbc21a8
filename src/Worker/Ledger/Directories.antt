-- ===== src/Worker/Ledger/Directories.antt =====
-- A numbered directory for each command.
use dev_harness.Base.{
  ℕ, ◌<◌, ◌≡◌, refl, ap, Option, none, some, List, [], ◌∷◌, ◌==◌, arith, if◌then◌else◌, false,
}

abbrev pub Slots {ℓ} : Type ℓ → Type ℓ
Slots S = List (ℕ × S)

module _ {ℓ} {S : Type ℓ} where
  unfoldable pub get : ℕ → Slots S → Option S
  get k [] = none
  get k ((j, s) ∷ l) = let rest = get k l in if j == k then some s else rest

  -- `rm -rf`
  unfoldable pub clear : ℕ → Slots S → Slots S
  clear k [] = []
  clear k ((j, s) ∷ l) = let rest = clear k l in if j == k then rest else (j, s) ∷ rest

  -- `rm -rf`, then the new directory
  unfoldable pub put : ℕ → S → Slots S → Slots S
  unfolding clear
  put k s l = (k, s) ∷ clear k l

  clear-clear : (k : ℕ) (l : Slots S) → clear k (clear k l) ≡ clear k l
  unfolding clear
  clear-clear k [] = refl
  clear-clear k ((j, s) ∷ l) = ground (arith, clear-clear k l)

  pub put-put : (k : ℕ) (s t : S) (l : Slots S) → put k t (put k s l) ≡ put k t l
  unfolding put clear
  put-put k s t l = ground (arith, clear-clear k l)

  pub get-put : (k : ℕ) (s : S) (l : Slots S) → get k (put k s l) ≡ some s
  unfolding get put
  get-put k s l = ground arith

  get-clear : (j k : ℕ) (l : Slots S) → (k == j) ≡ false → get j (clear k l) ≡ get j l
  unfolding get clear
  get-clear j k [] h = refl
  get-clear j k ((i, s) ∷ l) h = ground (arith, get-clear j k l)

  pub get-put_other : (j k : ℕ) (s : S) (l : Slots S) → j < k → get j (put k s l) ≡ get j l
  unfolding get put
  get-put_other j k s l h = ground (arith, get-clear j k l)

  pub put-clear : (k : ℕ) (s : S) (l : Slots S) → put k s (clear k l) ≡ put k s l
  unfolding put
  put-clear k s l = ap (λ rest. (k, s) ∷ rest) (clear-clear k l)

  pub get-clear_same : (k : ℕ) (l : Slots S) → get k (clear k l) ≡ none
  unfolding get clear
  get-clear_same k [] = refl
  get-clear_same k ((j, s) ∷ l) = ground (arith, get-clear_same k l)

  pub get-clear_other : (j k : ℕ) (l : Slots S) → j < k → get j (clear k l) ≡ get j l
  get-clear_other j k l h = get-clear j k l (ground (arith, h))
