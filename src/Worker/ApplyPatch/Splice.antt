-- ===== src/Worker/ApplyPatch/Splice.antt =====
-- bf_worker/services/apply_patch.py: `apply_change_infos`, which puts new lines in the place of the
-- anchored ones, at the indentation of the file.
use dev_harness.Base.{
  ℕ, zero, suc, ◌-◌, not, ◌&&◌, ◌||◌, Option, some, List, [], ◌∷◌, ◌++◌, ◌==◌, map, length, take,
  drop, get_elem?, if◌then◌else◌, ◌>>=◌,
}
use dev_harness.Base.Text.{Text, text_eq, drop_while, is_blank, starts_with}
use dev_harness.Base.Split.{split_on, join}
use dev_harness.Worker.ApplyPatch.{Change, resolve_index}

-- A change with the text that it puts in.
pub record Edit : Type 0 where
  pub change : Change
  pub new_line : Text

-- `_leading_ws`
unfoldable pub leading_ws : Text → Text
unfolding drop_while
leading_ws s = take (length s - length (drop_while (λ c. c == 32 || c == 9) s)) s

unfoldable pub reindent_line : Text → Text → Text → Text
unfolding is_blank
reindent_line source_indent on_disk_indent line =
    if is_blank line
    then line
    else if not (text_eq on_disk_indent []) && starts_with line on_disk_indent
    then line
    else if not (text_eq source_indent []) && starts_with line source_indent
    then on_disk_indent ++ drop (length source_indent) line
    else if text_eq source_indent []
    then on_disk_indent ++ line
    else line

-- `_reindent_new_line`
unfoldable pub reindent_new_line : Text → Text → Text → Text
unfolding reindent_line
reindent_new_line new_line source_indent on_disk_indent =
    if text_eq source_indent on_disk_indent
    then new_line
    else join 10 (map (reindent_line source_indent on_disk_indent) (split_on 10 new_line))

-- `src_lines[idx:idx + 1] = lines`
unfoldable pub splice : ℕ → List Text → List Text → List Text
splice idx lines [] = lines
splice zero lines (l ∷ ls) = lines ++ ls
splice (suc idx) lines (l ∷ ls) = l ∷ splice idx lines ls

-- The new lines in the place of `on_disk`.
unfoldable pub rebased : Text → Text → Text → List Text
unfolding reindent_new_line leading_ws
rebased new_line original on_disk =
    split_on 10 (reindent_new_line new_line (leading_ws original) (leading_ws on_disk))

-- One round of the loop of `apply_change_infos`.
unfoldable pub apply_edit : List Text → Edit → Option (List Text)
unfolding rebased
apply_edit src_lines e = do
  original ← e.change.original_line
  idx ← resolve_index src_lines e.change
  on_disk ← get_elem? src_lines idx
  some (splice idx (rebased e.new_line original on_disk) src_lines)

unfoldable pub apply_edits : List Text → List Edit → Option (List Text)
unfolding apply_edit
apply_edits src_lines [] = some src_lines
apply_edits src_lines (e ∷ es) = do src_lines' ← apply_edit src_lines e; apply_edits src_lines' es

-- `apply_change_infos`, on the text of the file
unfoldable pub apply_change_infos : Text → List Edit → Option Text
unfolding apply_edits
apply_change_infos source es = do
  src_lines ← apply_edits (split_on 10 source) es
  some (join 10 src_lines)
