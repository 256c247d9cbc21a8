-- ===== src/Worker/ApplyPatch/Edits.antt =====
-- What `apply_change_infos` of bf_worker/services/apply_patch.py changes in a file.
use dev_harness.Base.{
  ℕ, zero, suc, ◌≡◌, refl, sym, ap, ◌∙◌, subst, some, List, [], ◌∷◌, ◌++◌, get_elem?, bind-some,
  some-eq,
}
use dev_harness.Base.Text.{Text, strip}
use dev_harness.Base.Split.{split_on, join}
use dev_harness.Worker.ApplyPatch.{resolve_index}
use dev_harness.Worker.ApplyPatch.Anchors.{resolve_index-Fits}
use dev_harness.Worker.ApplyPatch.Splice.{
  Edit, splice, rebased, apply_edit, apply_edits, apply_change_infos,
}

-- One line, which is the original of the edit up to the space around it, became the new lines.
pub Replaced : List Text → Edit → List Text → Type 0
Replaced lines e lines' =
    (before : List Text) × (after : List Text) × (line : Text) × (original : Text) × (lines
      ≡ before ++ (line ∷ after))
    × (e.change.original_line ≡ some original)
    × (strip line ≡ strip original)
    × (lines' ≡ before ++ (rebased e.new_line original line ++ after))

-- The edits were made one after the other.
pub Edited : List Text → List Edit → List Text → Type 0
Edited lines [] lines' = lines ≡ lines'
Edited lines (e ∷ es) lines' =
    (between : List Text) × Replaced lines e between × Edited between es lines'

splice-split :
    (i : ℕ) (lines new : List Text) (l : Text)
    → get_elem? lines i ≡ some l
    → (before : List Text) × (after : List Text) × (lines ≡ before ++ (l ∷ after))
      × (splice i new lines ≡ before ++ (new ++ after))
unfolding splice
splice-split i [] new l h = cc
splice-split zero (x ∷ xs) new l h = let same : x ≡ l = cc in ([], xs, ap (λ y. y ∷ xs) same, refl)
splice-split (suc i) (x ∷ xs) new l h =
    let (before, after, whole, spliced) = splice-split i xs new l h in
    (x ∷ before, after, ap (λ ys. x ∷ ys) whole, ap (λ ys. x ∷ ys) spliced)

apply_edit-Replaced :
    (lines lines' : List Text) (e : Edit)
    → apply_edit lines e ≡ some lines'
    → Replaced lines e lines'
unfolding apply_edit Replaced
apply_edit-Replaced lines lines' e h =
    let (original, ho, h1) = bind-some e.change.original_line _ _ h in
    let (i, hi, h2) = bind-some (resolve_index lines e.change) _ _ h1 in
    let (line, hl, h3) = bind-some (get_elem? lines i) _ _ h2 in
    let (fit, at, like) = resolve_index-Fits lines e.change original i ho hi in
    let same : fit ≡ line = some-eq fit line (sym at ∙ hl) in
    let (before, after, whole, spliced) =
      splice-split i lines (rebased e.new_line original line) line hl in
    (
      before,
      after,
      line,
      original,
      whole,
      ho,
      subst (λ l. strip l ≡ strip original) same like,
      sym (some-eq _ lines' h3) ∙ spliced,
    )

apply_edits-Edited :
    (es : List Edit) (lines lines' : List Text)
    → apply_edits lines es ≡ some lines'
    → Edited lines es lines'
unfolding apply_edits Edited
apply_edits-Edited [] lines lines' h = some-eq lines lines' h
apply_edits-Edited (e ∷ es) lines lines' h =
    let (between, first, rest) = bind-some (apply_edit lines e) _ _ h in
    (between, apply_edit-Replaced lines between e first, apply_edits-Edited es between lines' rest)

-- A file that was patched is its lines with each edit made in turn: an edit takes out one line, which is
-- its original line up to the space around it, puts the lines of its rebased new text there, and leaves
-- every other line as it is.
pub apply_change_infos-Edited :
    (source result : Text) (es : List Edit)
    → apply_change_infos source es ≡ some result
    → (lines' : List Text) × Edited (split_on 10 source) es lines' × (result ≡ join 10 lines')
unfolding apply_change_infos
apply_change_infos-Edited source result es h =
    let (lines', edited, joined) = bind-some (apply_edits (split_on 10 source) es) _ _ h in
    (lines', apply_edits-Edited es _ lines' edited, sym (some-eq _ result joined))
