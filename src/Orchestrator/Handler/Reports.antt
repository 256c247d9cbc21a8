-- ===== src/Orchestrator/Handler/Reports.antt =====
-- When orchestrator/orchestrator.py starts a worker.
use dev_harness.Base.{
  ℕ, ◌≡◌, ap, ◌∙◌, subst, inl, inr, Bool, true, false, ◌&&◌, Option, some, none, [], arith,
  Bool-cases, bind-some,
}
use dev_harness.Base.Json.{
  Json, str, null, bool, number, array, object, nil, cons, no_fields, get_item, item, is_word,
}
use dev_harness.Base.Text.{Text, codes, starts_with}
use dev_harness.Orchestrator.Parser.{
  parse_branch, parse_message, classify, from_pipeline, report, as_text, first_item, Event,
  bug_reported, validation_status, other,
}
use dev_harness.Orchestrator.Handler.{Moment, handle_event, spawn, new_bug_id, handle_message}

as_text-str : (j : Json) (s : Text) → as_text j ≡ some s → j ≡ str s
as_text-str (str t) s h = let same : t ≡ s = cc in ap str same
as_text-str null s h = cc
as_text-str (bool b) s h = cc
as_text-str (number n) s h = cc
as_text-str (array l) s h = cc
as_text-str (object ms) s h = cc

branch-eq :
    (p p' w w' j j' : Json) (b b' : Text)
    → some (bug_reported p w j b) ≡ some (bug_reported p' w' j' b')
    → b ≡ b'
branch-eq p p' w w' j j' b b' h = cc

report-branch :
    (payload project_id web_url job_id : Json) (branch reported : Text)
    → report payload branch ≡ some (bug_reported project_id web_url job_id reported)
    → branch ≡ reported
unfolding report
report-branch payload project_id web_url job_id branch reported h =
    let (project, _, h1) = bind-some (get_item "project" (object no_fields) payload) _ _ h in
    let (p, _, h2) = bind-some (get_item "id" (str []) project) _ _ h1 in
    let (w, _, h3) = bind-some (get_item "web_url" (str []) project) _ _ h2 in
    let (builds, _, h4) =
      bind-some (get_item "builds" (array (cons (object no_fields) nil)) payload) _ _ h3 in
    let (build, _, h5) = bind-some (first_item builds) _ _ h4 in
    let (j, _, h6) = bind-some (get_item "id" (str []) build) _ _ h5 in
    branch-eq p project_id w web_url j job_id branch reported h6

-- What a report of a bug comes from.
pub Reported : Json → Text → Json → Type 0
Reported payload branch status =
    (is_word "failed" status ≡ true)
    × ((kind : Json) × (item "object_kind" payload ≡ some kind) × (is_word "pipeline" kind ≡ true))
    × (starts_with branch (codes "auto/") ≡ false)

from_pipeline-Reported :
    (payload : Json) (branch reported : Text) (status project_id web_url job_id : Json)
    → starts_with branch (codes "auto/") ≡ false
    → from_pipeline payload branch status ≡ some (bug_reported project_id web_url job_id reported)
    → (branch ≡ reported) × Reported payload branch status
unfolding from_pipeline Reported
from_pipeline-Reported payload branch reported status project_id web_url job_id outside h =
    let (kind, found, rest) = bind-some (item "object_kind" payload) _ _ h in
    elim (Bool-cases (is_word "pipeline" kind && is_word "failed" status)) [
      | inr e ↦ absurd (
          let bad : some other ≡ some (bug_reported project_id web_url job_id reported) =
            rw e at rest in
          cc)
      | inl e ↦ (
        report-branch payload project_id web_url job_id branch reported (rw e at rest),
        (ground arith, (kind, found, ground arith), outside),
      )
    ]

classify-Reported :
    (payload : Json) (branch reported : Text) (status project_id web_url job_id : Json)
    (matched : Option Text)
    → classify payload branch status matched
      ≡ some (bug_reported project_id web_url job_id reported)
    → (branch ≡ reported) × Reported payload branch status
unfolding classify
classify-Reported payload branch reported status project_id web_url job_id (some bug_id) h = cc
classify-Reported payload branch reported status project_id web_url job_id none h =
    elim (Bool-cases (starts_with branch (codes "auto/"))) [
      | inl e ↦ absurd (
          let bad : some other ≡ some (bug_reported project_id web_url job_id reported) =
            rw e at h in
          cc)
      | inr e ↦
          from_pipeline-Reported payload branch reported status project_id web_url job_id e
            (rw e at h)
    ]

parse_message-Reported :
    (is_digit : ℕ → Bool) (payload p w j : Json) (b : Text)
    → parse_message is_digit payload ≡ some (bug_reported p w j b)
    → (attributes : Json) × (status : Json) × (item "object_attributes" payload ≡ some attributes)
      × (item "ref" attributes ≡ some (str b))
      × (item "status" attributes ≡ some status)
      × Reported payload b status
unfolding parse_message
parse_message-Reported is_digit payload p w j b h =
    let (attributes, ha, h1) = bind-some (item "object_attributes" payload) _ _ h in
    let (ref, hr, h2) = bind-some (item "ref" attributes) _ _ h1 in
    let (status, hs, h3) = bind-some (item "status" attributes) _ _ h2 in
    let (branch, ht, h4) = bind-some (as_text ref) _ _ h3 in
    let found = classify-Reported payload branch b status p w j (parse_branch is_digit branch) h4 in
    let is_str : ref ≡ str branch = as_text-str ref branch ht in
    subst
      (λ b'.
        (attributes : Json) × (status : Json) × (item "object_attributes" payload ≡ some attributes)
        × (item "ref" attributes ≡ some (str b'))
        × (item "status" attributes ≡ some status)
        × Reported payload b' status)
      found.0 (attributes, status, ha, hr ∙ ap some is_str, hs, found.1)

-- A worker starts only for a failed pipeline on a branch outside of `auto/`, which is passed on, and under
-- the bug id of this moment.
pub spawn_needs_failure :
    (is_digit : ℕ → Bool) (to_str : Json → Text) (now : Moment) (tail : Text) (payload : Json)
    (bug_id project_id : Text) (web_url : Json) (job_id branch : Text)
    → handle_message is_digit to_str now tail payload
      ≡ some (spawn bug_id project_id web_url job_id branch)
    → (bug_id ≡ new_bug_id now tail)
      × ((attributes : Json) × (status : Json) × (item "object_attributes" payload
            ≡ some attributes)
          × (item "ref" attributes ≡ some (str branch))
          × (item "status" attributes ≡ some status)
          × Reported payload branch status)
unfolding handle_message
spawn_needs_failure is_digit to_str now tail payload bug_id project_id web_url job_id branch h =
    let (event, parsed, handled) = bind-some (parse_message is_digit payload) _ _ h in
    from_event event parsed handled
  where
    from_event :
        (event : Event)
        → parse_message is_digit payload ≡ some event
        → some (handle_event to_str now tail event)
          ≡ some (spawn bug_id project_id web_url job_id branch)
        → (bug_id ≡ new_bug_id now tail)
          × ((attributes : Json) × (status : Json) × (item "object_attributes" payload
                ≡ some attributes)
              × (item "ref" attributes ≡ some (str branch))
              × (item "status" attributes ≡ some status)
              × Reported payload branch status)
    from_event (validation_status b s) parsed handled = cc
    from_event other parsed handled = cc
    from_event (bug_reported p w j b) parsed handled =
        let named : bug_id ≡ new_bug_id now tail = cc in
        let same : b ≡ branch = cc in
        (
          named,
          subst
              (λ b'.
                (attributes : Json) × (status : Json) × (item "object_attributes" payload
                  ≡ some attributes)
                × (item "ref" attributes ≡ some (str b'))
                × (item "status" attributes ≡ some status)
                × Reported payload b' status)
              same (parse_message-Reported is_digit payload p w j b parsed),
        )
