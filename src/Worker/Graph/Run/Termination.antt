-- ===== src/Worker/Graph/Run/Termination.antt =====
-- Every run of the graph of bf_worker/graph/builder.py ends, whatever the outside world answers:
-- the call cap of the run budget and the cap on no-fix retries bound the visits of react_loop.
use dev_harness.Base.{
  ℕ, zero, suc, ◌+◌, ◌-◌, ◌*◌, ◌≤◌, ◌<◌, ◌≡◌, ◌≢◌, inl, inr, Option, none, some, arith, pos,
  Option-cases,
}
use dev_harness.Worker.Budget.{check}
use dev_harness.Worker.Graph.Builder.{
  Node, precheck_already_fixed, fetch_trace, parse_trace, fetch_source_file, react_loop,
  mini_react_loop, create_fix_branch, apply_change_and_test, code_review, commit_change,
  wait_ci_result, create_mr, handle_failure, to, entry_point,
}
use dev_harness.Worker.Graph.Builder.Diagram.{target, next-eq-target, Target-cases}
use dev_harness.Worker.Graph.ReactLoop.{max_steps}
use dev_harness.Worker.Graph.World.{Run, Settings, World, CodeReviewConfig}
use dev_harness.Worker.Graph.Nodes.{visit, visit_apply, visit_code_review}
use dev_harness.Worker.Graph.Run.{start, invoke, out_of_fuel}
use dev_harness.Worker.Graph.Run.Room.{room, room-check, room-record_call, react_steps-room}

-- The calls left, and the no-fix exits left.
abbrev pub remaining : Run → ℕ
remaining r = room r.budget + (2 - r.state.no_fix_retry_count)

rank : Node → ℕ
rank create_mr = 1
rank handle_failure = 1
rank wait_ci_result = 2
rank react_loop = 2
rank commit_change = 3
rank fetch_source_file = 3
rank code_review = 4
rank parse_trace = 4
rank apply_change_and_test = 5
rank create_fix_branch = 6
rank mini_react_loop = 7
rank fetch_trace = 8
rank precheck_already_fixed = 9

-- A bound on the visits from a node on.
abbrev pub visits_left : Node → Run → ℕ
unfolding rank
visits_left node r = 5 * remaining r + rank node

apply_keeps : (w : World) (r r' : Run) → visit_apply w r ≡ some r' → remaining r' ≤ remaining r
unfolding visit_apply
apply_keeps w r r' h = elim (Option-cases w.post_mortem) [
  | inl e ↦ ground arith
  | inr (u, e) ↦ ground (arith, room-record_call u.input u.output u.cost r.budget)
]

review_keeps :
    (cr : Option CodeReviewConfig) (w : World) (r : Run)
    → remaining (visit_code_review cr w r) ≤ remaining r
unfolding visit_code_review
review_keeps none w r = omega arith
review_keeps (some cr) w r = ground (
  arith,
  room-check w.review_at r.budget,
  room-record_call (pos 0) (pos 0) none (check w.review_at r.budget).0,
)

-- A visit of any node never gains.
visit_keeps :
    (st : Settings) (w : World) (node : Node) (r r' : Run)
    → visit st w node r ≡ some r'
    → remaining r' ≤ remaining r
unfolding visit
visit_keeps st w apply_change_and_test r r' h = apply_keeps w r r' h
visit_keeps st w code_review r r' h = ground (arith, review_keeps st.review w r)
visit_keeps st w react_loop r r' h =
    ground (arith, react_steps-room max_steps w.replies 0 r.budget r'.budget r'.state.llm_result)
visit_keeps st w _ r r' h = ground arith

-- A visit that leads back to react_loop, or on to a patch, has used up a call or a no-fix exit.
react_spends :
    (st : Settings) (w : World) (r r' : Run)
    → visit st w react_loop r ≡ some r'
    → target st.via_gateway react_loop r'.state ≢ to handle_failure
    → remaining r' < remaining r
unfolding visit
react_spends st w r r' h e =
    ground (arith, react_steps-room max_steps w.replies 0 r.budget r'.budget r'.state.llm_result)

visits_left_falls :
    (st : Settings) (w : World) (node node' : Node) (r r' : Run)
    → visit st w node r ≡ some r'
    → target st.via_gateway node r'.state ≡ to node'
    → visits_left node' r' < visits_left node r
unfolding visits_left
visits_left_falls st w react_loop node' r r' h e =
    ground (arith, react_spends st w r r' h, visit_keeps st w react_loop r r' h)
visits_left_falls st w node node' r r' h e = ground (arith, visit_keeps st w node r r' h)

visits_left_pos : (node : Node) (r : Run) → 0 < visits_left node r
unfolding visits_left
visits_left_pos node r = ground arith

-- A run from any node with as much fuel as `visits_left` ends at END or by an exception of a node.
pub invoke_ends :
    (fuel : ℕ) (st : Settings) (worlds : ℕ → World) (i : ℕ) (node : Node) (r : Run)
    → visits_left node r ≤ fuel
    → invoke fuel st worlds i node r ≢ out_of_fuel
unfolding invoke
invoke_ends zero st worlds i node r h = absurd (omega (arith, visits_left_pos node r))
invoke_ends (suc fuel) st worlds i node r h = elim (Option-cases (visit st (worlds i) node r)) [
  | inl e ↦ rw (e, invoke) (λ p. cc)
  | inr (r', e) ↦
      rw (e, invoke)
        (rw (next-eq-target st.via_gateway node r'.state, invoke)
          (elim (Target-cases (target st.via_gateway node r'.state)) [
            | inl q ↦ rw (q, invoke) (λ p. cc)
            | inr (node', q) ↦
                rw (q, invoke)
                  (invoke_ends fuel st worlds (suc i) node' r'
                    (omega (arith, visits_left_falls st (worlds i) node node' r r' e q)))
          ]))
]

-- A fresh run makes at most 5 * (max_calls + 2) + 9 visits: 169 with the default budget, for every
-- workflow, all settings and all answers of the outside world.
pub run_ends :
    (ver : ℕ) (cap : Option ℕ) (now : ℕ) (st : Settings) (worlds : ℕ → World)
    → invoke 169 st worlds 0 entry_point (start ver cap now) ≢ out_of_fuel
run_ends ver cap now st worlds =
    invoke_ends 169 st worlds 0 entry_point _ (unfold visits_left in omega arith)
