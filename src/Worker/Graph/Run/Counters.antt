-- ===== src/Worker/Graph/Run/Counters.antt =====
-- The counters that bound the loops of the graph of bf_worker/graph/builder.py.
use dev_harness.Base.{
  ℕ, ◌≤◌, ◌≡◌, ◌≢◌, refl, ◌∙◌, ap, Bool, true, Option, none, some, arith, eq_iff,
}
use dev_harness.Worker.Graph.State.{BugFixState, is_true}
use dev_harness.Worker.Graph.Builder.{
  Node, apply_change_and_test, code_review, commit_change, handle_failure, to, entry_point, next,
}
use dev_harness.Worker.Graph.Builder.Diagram.{target, next-eq-target}
use dev_harness.Worker.Graph.World.{Run, Settings, World, CodeReviewConfig}
use dev_harness.Worker.Graph.Nodes.{visit, visit_apply, visit_code_review}
use dev_harness.Worker.Graph.Run.{start, invoke, finished}
use dev_harness.Worker.Graph.Run.Invariants.{LastVisit, invoke_induction}

-- `max_rounds`, where there is a reviewer.
abbrev pub round_cap : Option CodeReviewConfig → ℕ
round_cap none = 0
round_cap (some cr) = cr.max_rounds

pub record Bounded (st : Settings) (fixes no_fixes : ℕ) (r : Run) : Type 0 where
  pub fix_retries : r.state.fix_retry_count ≤ fixes
  pub no_fix_retries : r.state.no_fix_retry_count ≤ no_fixes
  pub rounds : r.state.code_review_rounds ≤ round_cap st.review

-- Before every node but handle_failure a retry of each kind is left.
abbrev Counted : Settings → Node → Run → Type 0
Counted st n r = (n ≢ handle_failure → Bounded st 1 1 r) × Bounded st 2 2 r

module _ (st : Settings) (w : World) (r : Run) (b : Bounded st 1 1 r) where
  apply_counts : (r' : Run) → visit_apply w r ≡ some r' → Bounded st 2 1 r'
  unfolding visit_apply
  apply_counts r' v = ground arith

  passed_counts :
      (r' : Run)
      → visit_apply w r ≡ some r'
      → is_true r'.state.test_passed ≡ true
      → r'.state.fix_retry_count ≤ 1
  unfolding visit_apply
  passed_counts r' v p = ground arith

  review_counts :
      (c : Option CodeReviewConfig) → c ≡ st.review → Bounded st 1 1 (visit_code_review c w r)
  unfolding visit_code_review
  review_counts none e = b
  review_counts (some cr) e = ground arith

  -- A visit raises a counter to 2 at most, and to 2 only on the way to handle_failure.
  visit_counts : (n : Node) (r' : Run) → visit st w n r ≡ some r' → Bounded st 2 2 r'
  unfolding visit
  visit_counts apply_change_and_test r' v = ground (arith, apply_counts r' v)
  visit_counts code_review r' v = ground (arith, review_counts st.review refl)
  visit_counts _ r' v = ground arith

  visit_stays :
      (n n' : Node) (r' : Run)
      → visit st w n r ≡ some r'
      → target st.via_gateway n r'.state ≡ to n'
      → n' ≢ handle_failure
      → Bounded st 1 1 r'
  unfolding visit
  visit_stays apply_change_and_test n' r' v t h =
      ground (arith, apply_counts r' v, passed_counts r' v)
  visit_stays code_review n' r' v t h = ground (arith, review_counts st.review refl)
  visit_stays _ n' r' v t h = ground arith

goes_on : (g : Bool) (n n' : Node) (s : BugFixState) → target g n s ≡ to n' → n ≢ handle_failure
goes_on g handle_failure n' s t = cc
goes_on g _ n' s t = λ e. cc

Counted-visit :
    (st : Settings) (w : World) (n n' : Node) (r r' : Run)
    → Counted st n r
    → visit st w n r ≡ some r'
    → target st.via_gateway n r'.state ≡ to n'
    → Counted st n' r'
Counted-visit st w n n' r r' c v t =
    let b = c.0 (goes_on st.via_gateway n n' r'.state t) in
    (visit_stays st w r b n n' r' v t, visit_counts st w r b n r' v)

final_counts :
    (st : Settings) (w : World) (m : Node) (r r' : Run)
    → Counted st m r
    → visit st w m r ≡ some r'
    → Bounded st 2 2 r'
unfolding visit
final_counts st w handle_failure r r' c v = ground (arith, c.1)
final_counts st w m r r' c v = visit_counts st w r (c.0 (λ e. cc)) m r' v

-- However a run finishes, it counted at most two retries after a failed test, two no-fix exits, and
-- as many review rounds as the settings allow.
pub retries_capped :
    (ver : ℕ) (cap : Option ℕ) (now fuel : ℕ) (st : Settings) (worlds : ℕ → World) (m : Node)
    (r' : Run)
    → invoke fuel st worlds 0 entry_point (start ver cap now) ≡ finished m r'
    → Bounded st 2 2 r'
retries_capped ver cap now fuel st worlds m r' e =
    final_counts st l.world m l.before r' l.holds l.visited
  where
    l : LastVisit (Counted st) st m r'
    l =
        invoke_induction (Counted st) st (Counted-visit st) fuel worlds 0 entry_point
          (start ver cap now) m r' (λ h. omega arith, omega arith) e

-- A reviewer in any mode but "acting" never leads back to react_loop: when it is enabled the run goes
-- on to the commit, whatever it found and however it failed.
pub shadow_review_ships :
    (g : Bool) (cr : CodeReviewConfig) (w : World) (r : Run)
    → cr.enabled ≡ true
    → cr.mode ≢ "acting"
    → next g code_review (visit_code_review (some cr) w r).state ≡ some (to commit_change)
unfolding visit_code_review
shadow_review_ships g cr w r on mode =
    next-eq-target g code_review (visit_code_review (some cr) w r).state
    ∙ ap some (ground (arith, eq_iff cr.mode "acting"))
