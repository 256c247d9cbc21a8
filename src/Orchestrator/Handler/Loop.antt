-- ===== src/Orchestrator/Handler/Loop.antt =====
-- The loop of a fix through orchestrator/parser.py and orchestrator/orchestrator.py: a worker pushes the
-- branch of its bug id, and the pipeline of the branch comes back as an event.
use mathlib.Core.List.{append-nil}
use dev_harness.Base.{
  ℕ, ◌+◌, ◌/◌, ◌%◌, ◌≤◌, ◌<◌, ◌≡◌, refl, ap, subst, Bool, true, some, none, List, [], ◌∷◌, ◌++◌,
  take, arith,
}
use dev_harness.Base.Json.{Json, str, item}
use dev_harness.Base.Text.{Text, codes}
use dev_harness.Orchestrator.Parser.{
  Class, hex, is_in, run, literal, group, with_tail, parse_branch, moment_shape, tail_shape,
  commit_shape, patch_shape, parse_message, classify, either,
}
use dev_harness.Orchestrator.Parser.Branches.{Shaped, run-Shaped}
use dev_harness.Orchestrator.Handler.{
  Moment, route, new_bug_id, handle_message, deterministic_branch_name,
}

-- `\d` has the digits of ASCII.
abbrev pub AsciiDigits : (ℕ → Bool) → Type 0
AsciiDigits is_digit = (c : ℕ) → 48 ≤ c → c ≤ 57 → is_digit c ≡ true

-- The ranges of a time of day.
abbrev pub InRange : Moment → Type 0
InRange now =
    (now.year < 10000)
    × (now.month < 100)
    × (now.day < 100)
    × (now.hour < 100)
    × (now.minute < 100)
    × (now.second < 100)
    × (now.microsecond < 1000000)

abbrev hex_four : List Class
hex_four = hex ∷ hex ∷ hex ∷ hex ∷ []

abbrev hex_eight : List Class
hex_eight = hex ∷ hex ∷ hex ∷ hex ∷ hex ∷ hex ∷ hex ∷ hex ∷ []

module _ (is_digit : ℕ → Bool) (ascii : AsciiDigits is_digit) where
  two_lem : (n : ℕ) → n < 100 → (is_digit (48 + n / 10) ≡ true) × (is_digit (48 + n % 10) ≡ true)
  two_lem n h = (ascii _ (omega arith) (omega (arith, h)), ascii _ (omega arith) (omega arith))

  new_bug_id-Shaped :
      (now : Moment) (tail : Text)
      → InRange now
      → Shaped is_digit hex_four tail
      → Shaped is_digit (moment_shape ++ tail_shape) (new_bug_id now tail)
  unfolding is_in
  new_bug_id-Shaped now tail (year, month, day, hour, minute, second, microsecond) h =
      let y1 = two_lem (now.year / 100) (omega (arith, year)) in
      let y2 = two_lem (now.year % 100) (omega arith) in
      let mo = two_lem now.month month in
      let d = two_lem now.day day in
      let ho = two_lem now.hour hour in
      let mi = two_lem now.minute minute in
      let s = two_lem now.second second in
      let ds : is_digit (48 + now.microsecond / 100000) ≡ true =
        ascii _ (omega arith) (omega (arith, microsecond)) in
      (
        y1.0,
        (
          y1.1,
          (
            y2.0,
            (
              y2.1,
              (
                refl,
                (
                  mo.0,
                  (
                    mo.1,
                    (
                      refl,
                      (
                        d.0,
                        (
                          d.1,
                          (
                            refl,
                            (
                              ho.0,
                              (
                                ho.1,
                                (
                                  refl,
                                  (mi.0, (mi.1, (refl, (s.0, (s.1, (refl, (ds, (refl, h)))))))),
                                ),
                              ),
                            ),
                          ),
                        ),
                      ),
                    ),
                  ),
                ),
              ),
            ),
          ),
        ),
      )

  group-Shaped :
      (before bug after : List Class) (s bug_id t : Text)
      → Shaped is_digit before s
      → Shaped is_digit bug bug_id
      → Shaped is_digit after t
      → group is_digit before bug after (s ++ (bug_id ++ t)) ≡ some bug_id
  unfolding group
  group-Shaped before bug after s bug_id t hs hb ht =
      let last : run is_digit after t ≡ some (t, []) =
        subst (λ u. run is_digit after u ≡ some (t, [])) (append-nil t)
          (run-Shaped is_digit after t [] ht) in
      rw (run-Shaped is_digit before s (bug_id ++ t) hs, run-Shaped is_digit bug bug_id t hb, last)
        refl

  not_legacy :
      (rest : Text)
      → with_tail is_digit (literal "auto/bug_") patch_shape (codes "auto/bf/" ++ rest) ≡ none
  unfolding with_tail group run is_in
  not_legacy rest = refl

  parse_branch-deterministic_branch_name :
      (bug_id base_commit : Text)
      → Shaped is_digit (moment_shape ++ tail_shape) bug_id
      → Shaped is_digit hex_eight (take 8 base_commit)
      → parse_branch is_digit (deterministic_branch_name bug_id base_commit) ≡ some bug_id
  unfolding parse_branch with_tail deterministic_branch_name is_in
  parse_branch-deterministic_branch_name bug_id base_commit hb hc =
      ap
        (λ o. either o (
          group is_digit (literal "auto/bf/") moment_shape commit_shape
            (deterministic_branch_name bug_id base_commit)))
        (group-Shaped (literal "auto/bf/") (moment_shape ++ tail_shape) commit_shape
          (codes "auto/bf/") bug_id (codes "-" ++ take 8 base_commit)
          (refl, (refl, (refl, (refl, (refl, (refl, (refl, (refl, tt)))))))) hb (refl, hc))

  -- The message of a pipeline on the fix branch of a bug that the orchestrator itself named, at any time
  -- and with any tail of four hexadecimal digits, on a base commit of eight at least, goes to the worker of
  -- that bug with the status of the pipeline, and starts no worker.
  pub fix_branch_comes_back :
      (to_str : Json → Text) (before now : Moment) (old_tail tail base_commit : Text)
      (payload attributes status : Json)
      → InRange before
      → Shaped is_digit hex_four old_tail
      → Shaped is_digit hex_eight (take 8 base_commit)
      → item "object_attributes" payload ≡ some attributes
      → item "ref" attributes
        ≡ some (str (deterministic_branch_name (new_bug_id before old_tail) base_commit))
      → item "status" attributes ≡ some status
      → handle_message is_digit to_str now tail payload
        ≡ some (route (new_bug_id before old_tail) status)
  unfolding handle_message parse_message classify
  fix_branch_comes_back to_str before now old_tail tail base_commit payload attributes status valid
        hex_tail hex_commit ha hr hs =
      let back =
        parse_branch-deterministic_branch_name (new_bug_id before old_tail) base_commit
          (new_bug_id-Shaped before old_tail valid hex_tail) hex_commit in
      rw (ha, hr, hs, back) refl
