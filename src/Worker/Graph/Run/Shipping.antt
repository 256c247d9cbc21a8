-- ===== src/Worker/Graph/Run/Shipping.antt =====
-- What a finished run of the graph of bf_worker/graph/builder.py has shipped.
use dev_harness.Base.{ℕ, ◌≡◌, refl, true, Option, none, some, String, arith, eq_iff, ◌⊎◌, inl}
use dev_harness.Worker.Graph.Builder.{
  Node, apply_change_and_test, code_review, commit_change, wait_ci_result, create_mr,
  handle_failure, to, end, entry_point,
}
use dev_harness.Worker.Graph.Builder.Diagram.{target, succeeded}
use dev_harness.Worker.Graph.World.{Run, Settings, World}
use dev_harness.Worker.Graph.Nodes.{visit, visit_code_review}
use dev_harness.Worker.Graph.Run.{start, invoke, finished}
use dev_harness.Worker.Graph.Run.Invariants.{LastVisit, invoke_induction}

-- What holds before a visit of a node behind the tests, and behind CI.
abbrev Green : Node → Run → Type 0
Green code_review r = r.state.test_passed ≡ some true
Green commit_change r = r.state.test_passed ≡ some true
Green wait_ci_result r = r.state.test_passed ≡ some true
Green create_mr r = (r.state.test_passed ≡ some true) × (succeeded r.state.ci_status ≡ true)
Green _ r = Unit

review_keeps_verdict :
    (st : Settings) (w : World) (r : Run)
    → (visit_code_review st.review w r).state.test_passed ≡ r.state.test_passed
unfolding visit_code_review
review_keeps_verdict st w r = ground arith

module _ (st : Settings) (w : World) where
  into_review :
      (n : Node) (r r' : Run)
      → target st.via_gateway n r'.state ≡ to code_review
      → r'.state.test_passed ≡ some true
  into_review apply_change_and_test r r' t = ground arith
  into_review _ r r' t = ground arith

  into_commit :
      (n : Node) (r r' : Run)
      → Green n r
      → visit st w n r ≡ some r'
      → target st.via_gateway n r'.state ≡ to commit_change
      → r'.state.test_passed ≡ some true
  unfolding visit
  into_commit code_review r r' g v t = ground (arith, review_keeps_verdict st w r)
  into_commit _ r r' g v t = ground arith

  into_wait :
      (n : Node) (r r' : Run)
      → Green n r
      → visit st w n r ≡ some r'
      → target st.via_gateway n r'.state ≡ to wait_ci_result
      → r'.state.test_passed ≡ some true
  unfolding visit
  into_wait commit_change r r' g v t = ground arith
  into_wait _ r r' g v t = ground arith

  into_mr :
      (n : Node) (r r' : Run)
      → Green n r
      → visit st w n r ≡ some r'
      → target st.via_gateway n r'.state ≡ to create_mr
      → (r'.state.test_passed ≡ some true) × (succeeded r'.state.ci_status ≡ true)
  unfolding visit
  into_mr wait_ci_result r r' g v t = ground arith
  into_mr _ r r' g v t = ground arith

  Green-visit :
      (n n' : Node) (r r' : Run)
      → Green n r
      → visit st w n r ≡ some r'
      → target st.via_gateway n r'.state ≡ to n'
      → Green n' r'
  Green-visit n code_review r r' g v t = into_review n r r' t
  Green-visit n commit_change r r' g v t = into_commit n r r' g v t
  Green-visit n wait_ci_result r r' g v t = into_wait n r r' g v t
  Green-visit n create_mr r r' g v t = into_mr n r r' g v t
  Green-visit n _ r r' g v t = tt

last_visit :
    (ver : ℕ) (cap : Option ℕ) (now fuel : ℕ) (st : Settings) (worlds : ℕ → World) (m : Node)
    (r' : Run)
    → invoke fuel st worlds 0 entry_point (start ver cap now) ≡ finished m r'
    → LastVisit Green st m r'
last_visit ver cap now fuel st worlds m r' e =
    invoke_induction Green st (Green-visit st) fuel worlds 0 entry_point (start ver cap now) m r' tt
      e

succeeded→success : (ci : Option String) → succeeded ci ≡ true → ci ≡ some "success"
succeeded→success none h = cc
succeeded→success (some status) h = ground (arith, eq_iff status "success")

-- A run that finishes by creating a merge request has a test verdict of "passed" and a CI status of
-- "success" in its final state.
pub mr_needs_green :
    (ver : ℕ) (cap : Option ℕ) (now fuel : ℕ) (st : Settings) (worlds : ℕ → World) (r' : Run)
    → invoke fuel st worlds 0 entry_point (start ver cap now) ≡ finished create_mr r'
    → (r'.state.test_passed ≡ some true) × (r'.state.ci_status ≡ some "success")
unfolding visit
mr_needs_green ver cap now fuel st worlds r' e =
    let last = last_visit ver cap now fuel st worlds create_mr r' e in
    (
      ground (arith, last.holds, last.visited),
      succeeded→success r'.state.ci_status (ground (arith, last.holds, last.visited)),
    )

-- A run ends without an exception only behind create_mr or handle_failure, or at one of the two
-- probes with `already_fixed` set.
pub ends_accounted_for :
    (ver : ℕ) (cap : Option ℕ) (now fuel : ℕ) (st : Settings) (worlds : ℕ → World) (m : Node)
    (r' : Run)
    → invoke fuel st worlds 0 entry_point (start ver cap now) ≡ finished m r'
    → (m ≡ create_mr) ⊎ (m ≡ handle_failure) ⊎ (r'.state.already_fixed ≡ true)
ends_accounted_for ver cap now fuel st worlds m r' e =
    by_node m r' (last_visit ver cap now fuel st worlds m r' e).ends
  where
    by_node :
        (n : Node) (r : Run)
        → target st.via_gateway n r.state ≡ end
        → (n ≡ create_mr) ⊎ (n ≡ handle_failure) ⊎ (r.state.already_fixed ≡ true)
    by_node create_mr r t = inl refl
    by_node _ r t = ground arith
