-- ===== src/Worker/PatchTests.antt =====
-- A concrete change: the theorem at an input where its conditions hold.
use dev_harness.Base.{◌≡◌, refl, some, List, [], ◌∷◌, pos}
use dev_harness.Base.Text.{Text, codes, strip, drop_while, is_space, is_blank, starts_with}
use dev_harness.Worker.ApplyPatch.{
  Change, positions, loose_index, by_content, anchor, resolve_index,
}
use dev_harness.Worker.ApplyPatch.Splice.{Edit, splice, apply_change_infos}
use dev_harness.Worker.ApplyPatch.Edits.{Edited, apply_change_infos-Edited}
use dev_harness.Base.Split.{split_on, join}
use dev_harness.Worker.ApplyPatch.Anchors.{Fits, resolve_index-Fits}

abbrev lines : List Text
lines = codes "for c in s:" ∷ codes "    start = i" ∷ codes "    end = j" ∷ []

-- The line number is stale, and the indentation is lost.
abbrev change : Change
change = record { line_number = some (pos 9); original_line = some (codes "start = i") }

resolved : resolve_index lines change ≡ some 1
unfolding resolve_index anchor by_content loose_index positions strip drop_while is_space
resolved = refl

resolve_index-Fits_example : Fits lines (codes "start = i") 1
resolve_index-Fits_example = resolve_index-Fits lines change (codes "start = i") 1 refl resolved

abbrev source : Text
source = codes "for c in s:\n    start = i\n    end = j"

abbrev fixes : List Edit
fixes = record { change = change; new_line = codes "start = i + 1\nskip()" } ∷ []

patched :
    apply_change_infos source fixes
    ≡ some (codes "for c in s:\n    start = i + 1\n    skip()\n    end = j")
unfolding apply_change_infos resolve_index split_on join starts_with is_blank is_space strip
    drop_while splice
patched = refl

apply_change_infos-Edited_example :
    (lines' : List Text) × Edited (split_on 10 source) fixes lines'
    × (codes "for c in s:\n    start = i + 1\n    skip()\n    end = j" ≡ join 10 lines')
apply_change_infos-Edited_example = apply_change_infos-Edited source _ fixes patched
