-- ===== src/Worker/Resume/Boundaries.antt =====
-- The records that the agent of bf_worker/agents/mini_resume.py writes between two steps.
use dev_harness.Base.{
  ℕ, suc, ◌≡◌, refl, sym, ap, ◌∙◌, inl, inr, Bool, false, ◌||◌, none, some, ◌==◌, length,
  Bool-cases, Option-cases, some-eq,
}
use dev_harness.Base.Text.{text_iff}
use dev_harness.Worker.Resume.{
  Record, Agent, last, Policy, Verdict, clean, goes_on, counted, boundary_record, checkpoint,
  load_record, restore, align, continuing, continue_from, reconcile_agent, resume,
}
use dev_harness.Worker.Resume.Steps.{view}

module _ {M : Type 0} (is_assistant is_exit : M → Bool) (a : Agent M) where
  -- The only record that a checkpoint saves.
  saved :
      (a' : Agent M) (r : Record M)
      → checkpoint is_assistant is_exit a ≡ (a', some r)
      → (a' ≡ counted a) × ((done : Bool) × (r ≡ boundary_record done a))
  unfolding checkpoint
  saved a' r h = elim (Option-cases (last a.messages)) [
    | inl e ↦ absurd (let bad : (a, none) ≡ (a', some r) = rw (e, checkpoint) at h in cc)
    | inr (m, e) ↦ elim (Bool-cases (length a.messages == a.message_count || is_assistant m)) [
      | inl q ↦ absurd (let bad : (a, none) ≡ (a', some r) = rw (e, checkpoint, q) at h in cc)
      | inr q ↦
          let pair : (counted a, some (boundary_record (is_exit m) a)) ≡ (a', some r) =
            rw (e, checkpoint, q) at h in
          (sym (ap (λ p. p.0) pair), (is_exit m, sym (some-eq _ r (ap (λ p. p.1) pair))))
    ]
  ]

-- The agent that goes on from a boundary.
abbrev at_boundary : {M : Type 0} → Agent M → Agent M → Agent M
at_boundary a b = continuing (align a.seq (restore (boundary_record false a) b))

resume-boundary_record :
    {M : Type 0} (policy : Policy) (verdict : ℕ → Verdict × ℕ) (a b : Agent M)
    → b.fingerprint ≡ a.fingerprint
    → verdict a.seq ≡ (clean, 0)
    → resume policy verdict (some (boundary_record false a)) b ≡ goes_on (at_boundary a b)
unfolding resume load_record boundary_record restore continue_from reconcile_agent
resume-boundary_record policy verdict a b same untouched =
    rw ((text_iff a.fingerprint b.fingerprint).1 (sym same), resume, load_record, untouched) refl

view-at_boundary :
    {M : Type 0} (a b : Agent M)
    → b.fingerprint ≡ a.fingerprint
    → view (at_boundary a b) ≡ view (counted a)
unfolding restore boundary_record
view-at_boundary a b same = λ i. record a {
  fingerprint = same i;
  step = suc a.step;
  message_count = 0;
  resume_count = 0;
  resumed_from_step = none;
  pending = none;
}

module _ {M : Type 0} (is_assistant is_exit : M → Bool) (a : Agent M) where
  -- If a checkpoint saves a record of an unfinished run, and the container ran no command since, then a
  -- new agent of the same run that resumes from the record goes on as the agent was after the checkpoint:
  -- the same messages, counts of calls and costs, step and command numbers, with no message pending.
  pub boundary_comes_back :
      (policy : Policy) (verdict : ℕ → Verdict × ℕ) (a' b : Agent M) (r : Record M)
      → checkpoint is_assistant is_exit a ≡ (a', some r)
      → r.done ≡ false
      → b.fingerprint ≡ a.fingerprint
      → verdict a.seq ≡ (clean, 0)
      → (b' : Agent M) × (resume policy verdict (some r) b ≡ goes_on b')
        × (view b' ≡ view a')
        × (b'.pending ≡ none)
  unfolding boundary_record restore
  boundary_comes_back policy verdict a' b r h unfinished same untouched =
      let (agent, (done, stored)) = saved is_assistant is_exit a a' r h in
      let is_open : done ≡ false = sym (ap (λ x. x.done) stored) ∙ unfinished in
      let whole : r ≡ boundary_record false a = stored ∙ ap (λ d. boundary_record d a) is_open in
      (
        at_boundary a b,
        ap (λ x. resume policy verdict (some x) b) whole
            ∙ resume-boundary_record policy verdict a b same untouched,
        view-at_boundary a b same ∙ ap view (sym agent),
        refl,
      )
