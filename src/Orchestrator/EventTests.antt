-- ===== src/Orchestrator/EventTests.antt =====
-- Messages of pipelines, on a fix branch and on another one.
use dev_harness.Base.{ℕ, ◌≡◌, refl, ◌&&◌, Bool, some, leb, arith, []}
use dev_harness.Base.Json.{Json, str, object, no_fields, member, item}
use dev_harness.Base.Text.{Text, codes, starts_with}
use dev_harness.Orchestrator.Parser.{parse_message, parse_branch, is_in}
use dev_harness.Orchestrator.Handler.{
  Moment, spawn, route, new_bug_id, handle_message, deterministic_branch_name,
}
use dev_harness.Orchestrator.Handler.Loop.{AsciiDigits, fix_branch_comes_back}
use dev_harness.Orchestrator.Handler.Reports.{Reported, spawn_needs_failure}

abbrev is_digit : ℕ → Bool
is_digit c = leb 48 c && leb c 57

ascii : AsciiDigits is_digit
ascii c low high = ground arith

abbrev at : Moment
at = record {
  year = 2026;
  month = 2;
  day = 3;
  hour = 4;
  minute = 5;
  second = 6;
  microsecond = 789000;
}

abbrev tail : Text
tail = codes "0a1b"

abbrev commit : Text
commit = codes "deadbeef0123"

abbrev pipeline : Text → Json
pipeline branch = object (
    member "object_kind" (str (codes "pipeline")) (
      member "object_attributes"
        (object (member "ref" (str branch) (member "status" (str (codes "failed")) no_fields)))
        no_fields))

abbrev attributes : Text → Json
attributes branch =
    object (member "ref" (str branch) (member "status" (str (codes "failed")) no_fields))

bug_id_of_moment : new_bug_id at tail ≡ codes "2026_02_03-04_05_06_7_0a1b"
bug_id_of_moment = refl

abbrev no_str : Json → Text
no_str j = []

fix_branch_comes_back_example :
    handle_message is_digit no_str at tail
      (pipeline (deterministic_branch_name (new_bug_id at tail) commit))
    ≡ some (route (new_bug_id at tail) (str (codes "failed")))
unfolding is_in
fix_branch_comes_back_example =
    fix_branch_comes_back is_digit ascii no_str at at tail tail commit
      (pipeline (deterministic_branch_name (new_bug_id at tail) commit))
      (attributes (deterministic_branch_name (new_bug_id at tail) commit)) (str (codes "failed"))
      (omega arith, omega arith, omega arith, omega arith, omega arith, omega arith, omega arith)
      (refl, (refl, (refl, (refl, tt))))
      (refl, (refl, (refl, (refl, (refl, (refl, (refl, (refl, tt)))))))) refl refl refl

spawns :
    handle_message is_digit no_str at tail (pipeline (codes "main"))
    ≡ some (spawn (new_bug_id at tail) [] (str []) [] (codes "main"))
unfolding handle_message parse_message parse_branch starts_with
spawns = refl

spawn_needs_failure_example :
    (new_bug_id at tail ≡ new_bug_id at tail)
    × ((attributes : Json) × (status : Json) × (item "object_attributes" (pipeline (codes "main"))
          ≡ some attributes)
        × (item "ref" attributes ≡ some (str (codes "main")))
        × (item "status" attributes ≡ some status)
        × Reported (pipeline (codes "main")) (codes "main") status)
spawn_needs_failure_example =
    spawn_needs_failure is_digit no_str at tail (pipeline (codes "main")) (new_bug_id at tail) []
      (str []) [] (codes "main") spawns
