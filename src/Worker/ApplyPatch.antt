-- ===== src/Worker/ApplyPatch.antt =====
-- bf_worker/services/apply_patch.py: the line that a change is anchored to. A line is a text without
-- line breaks; `none` is `PatchAnchorError`. A change that is no object is refused before.
pub mod Anchors
pub mod Splice
pub mod Edits
use dev_harness.Base.{
  ℕ, zero, suc, ◌-◌, ◌+◌, ◌≤◌, ◌≡◌, refl, sym, ap, ◌∙◌, inl, inr, Bool, true, false, Option, none,
  some, List, [], ◌∷◌, ℤ, pos, negsuc, ◌==◌, any, get_elem?, arith, Bool-cases, Option-cases,
  if◌then◌else◌, is_some, subst,
}
use dev_harness.Base.Text.{Text, strip, text_eq, text_eq→eq, text_eq_refl}

pub record Change : Type 0 where
  pub line_number : Option ℤ
  pub original_line : Option Text

-- `ln - 1`, where it can be an index
abbrev pub hint_of : Option ℤ → Option ℕ
hint_of (some (pos (suc n))) = some n
hint_of _ = none

-- The indices of the lines where `p` holds; `i` is the index of the first line.
unfoldable pub positions : (Text → Bool) → ℕ → List Text → List ℕ
positions p i [] = []
positions p i (l ∷ ls) = let rest = positions p (suc i) ls in if p l then i ∷ rest else rest

-- The whitespace-tolerant retry.
unfoldable pub loose_index : List Text → Text → Option ℕ
unfolding positions
loose_index lines [] = none
loose_index lines (c ∷ key) = elim (positions (λ l. text_eq (strip l) (c ∷ key)) 0 lines) [
  | [] ↦ none
  | i ∷ more ↦ elim more [ [] ↦ some i | _ ∷ _ ↦ none ]
]

abbrev pub hinted : List ℕ → Option ℕ → Option ℕ
hinted exact none = none
hinted exact (some h) = if any (λ i. i == h) exact then some h else none

abbrev pub exact_at : List Text → Text → Option ℕ → Bool
exact_at lines original none = false
exact_at lines original (some h) = elim (get_elem? lines h) [
  | none ↦ false
  | some l ↦ text_eq l original
]

-- The anchor of a line that is not where the hint says.
unfoldable pub by_content : List Text → Text → Option ℕ → Option ℕ
unfolding loose_index positions
by_content lines original hint = elim (positions (λ l. text_eq l original) 0 lines) [
  | [] ↦ loose_index lines (strip original)
  | i ∷ more ↦ elim more [
    | [] ↦ some i
    | _ ∷ _ ↦ hinted (positions (λ l. text_eq l original) 0 lines) hint
  ]
]

unfoldable pub anchor : List Text → Text → Option ℕ → Option ℕ
unfolding by_content
anchor lines [] hint = none
anchor lines (c ∷ cs) hint =
    if exact_at lines (c ∷ cs) hint then hint else by_content lines (c ∷ cs) hint

-- `_resolve_index`
unfoldable pub resolve_index : List Text → Change → Option ℕ
unfolding anchor
resolve_index lines c = elim c.original_line [
  | none ↦ none
  | some original ↦ anchor lines original (hint_of c.line_number)
]
