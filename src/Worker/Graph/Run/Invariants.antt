-- ===== src/Worker/Graph/Run/Invariants.antt =====
-- Induction over the visits of a run.
use dev_harness.Base.{ℕ, zero, suc, ◌≡◌, inl, inr, some, Option-cases}
use mathlib.Core.Path.{subst₂}
use dev_harness.Worker.Graph.Builder.{Node, to, end}
use dev_harness.Worker.Graph.Builder.Diagram.{target, next-eq-target, Target-cases}
use dev_harness.Worker.Graph.World.{Run, Settings, World}
use dev_harness.Worker.Graph.Nodes.{visit}
use dev_harness.Worker.Graph.Run.{finished, raised, invoke}

-- The last visit of a run that finished at `m` with `r'`: `P` held before it.
pub record LastVisit (P : Node → Run → Type 0) (st : Settings) (m : Node) (r' : Run) : Type 0 where
  pub before : Run
  pub world : World
  pub holds : P m before
  pub visited : visit st world m before ≡ some r'
  pub ends : target st.via_gateway m r'.state ≡ end

same_end :
    {P : Node → Run → Type 0} {st : Settings} {n m : Node} {r r' : Run}
    → finished n r ≡ finished m r'
    → LastVisit P st n r
    → LastVisit P st m r'
same_end {P} {st} e = subst₂ (LastVisit P st) (cc) (cc)

module _ (P : Node → Run → Type 0) (st : Settings)
    (keeps : (w : World) (n n' : Node) (r r' : Run)
      → P n r
      → visit st w n r ≡ some r'
      → target st.via_gateway n r'.state ≡ to n'
      → P n' r') where
  pub invoke_induction :
      (fuel : ℕ) (worlds : ℕ → World) (i : ℕ) (n : Node) (r : Run) (m : Node) (r' : Run)
      → P n r
      → invoke fuel st worlds i n r ≡ finished m r'
      → LastVisit P st m r'
  unfolding invoke
  invoke_induction zero worlds i n r m r' p e = cc
  invoke_induction (suc fuel) worlds i n r m r' p e =
      elim (Option-cases (visit st (worlds i) n r)) [
        | inl v ↦ absurd (let bad : raised n ≡ finished m r' = rw (v, invoke) at e in cc)
        | inr (r'', v) ↦
            let e' = rw (v, invoke) at e in
            let e'' = rw (next-eq-target st.via_gateway n r''.state, invoke) at e' in
            elim (Target-cases (target st.via_gateway n r''.state)) [
              | inl t ↦
                  let same : finished n r'' ≡ finished m r' = rw (t, invoke) at e'' in
                  same_end same
                    (record { before = r; world = worlds i; holds = p; visited = v; ends = t })
              | inr (n', t) ↦
                  invoke_induction fuel worlds (suc i) n' r'' m r'
                    (keeps (worlds i) n n' r r'' p v t) (rw (t, invoke) at e'')
            ]
      ]
