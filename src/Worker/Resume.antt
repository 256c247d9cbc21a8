-- ===== src/Worker/Resume.antt =====
-- bf_worker/agents/mini_resume.py: `ResumableAgent`, which writes a record of its loop and goes on from
-- it. The messages, the commands of one and the observations of their outputs are the vendored agent's:
-- parameters. The record goes to a store and comes back; the clock and the template variables are not in
-- it here. An agent is one whose environment keeps the ledger of Worker/Ledger.
pub mod Steps
pub mod Boundaries
use dev_harness.Base.{
  ℕ, zero, suc, ◌+◌, ◌-◌, Bool, true, false, not, ◌&&◌, ◌||◌, Option, none, some, List, [], ◌∷◌,
  ◌++◌, ◌==◌, length, max, if◌then◌else◌, ◌>>=◌,
}
use dev_harness.Base.Text.{Text, codes, lower, strip, text_eq}
use dev_harness.Worker.StepCheckpoint.Backend.{first_set}
use dev_harness.Worker.Ledger.{Container, execute_actions}

-- A message whose commands are not done.
pub record Pending (M : Type 0) : Type 0 where
  pub message : M
  pub first_seq : ℕ

pub record Record (M : Type 0) : Type 0 where
  pub fingerprint : Text
  pub done : Bool
  pub step : ℕ
  pub env_seq : ℕ
  pub n_calls : ℕ
  pub cost : ℕ
  pub resume_count : ℕ
  pub replayed_commands : ℕ
  pub messages : List M
  pub pending : Option (Pending M)

-- The agent with its `ResumeCtx` and the counter of its environment.
pub record Agent (M : Type 0) : Type 0 where
  pub fingerprint : Text
  pub messages : List M
  pub n_calls : ℕ
  pub cost : ℕ
  pub step : ℕ
  pub message_count : ℕ
  pub resume_count : ℕ
  pub replayed_commands : ℕ
  pub resumed_from_step : Option ℕ
  pub pending : Option (Pending M)
  pub seq : ℕ

abbrev pub init : {M : Type 0} → List M → List M
init [] = []
init (m ∷ []) = []
init (m ∷ n ∷ ms) = m ∷ init (n ∷ ms)

abbrev pub last : {M : Type 0} → List M → Option M
last [] = none
last (m ∷ []) = some m
last (m ∷ n ∷ ms) = last (n ∷ ms)

-- `true` is `rerun`, and `false` is `restart`; `none` is the error of `ambiguous_policy`.
abbrev pub Policy : Type 0
Policy = Option Bool

unfoldable pub ambiguous_policy : Option Text → Policy
unfolding lower strip
ambiguous_policy setting =
    let policy = lower (strip (first_set setting (codes "rerun"))) in
    if text_eq policy (codes "rerun")
    then some true
    else if text_eq policy (codes "restart")
    then some false
    else none

-- What `reconcile` says of the marker.
pub data Verdict : Type 0 where
  clean unknown ambiguous mismatch : Verdict

-- How a resume ends: fresh, or as the agent that goes on; or the run is purged and aborted.
pub data Resumed (M : Type 0) : Type 0 where
  goes_on : Agent M → Resumed M
  aborted : Resumed M

-- `ResumableDockerEnvironment.reconcile`, with what the marker file says, and the number of the commands
-- that were not recorded.
unfoldable pub reconcile : Bool → Bool → Option ℕ → ℕ → Verdict × ℕ
reconcile attached marker_enabled marker seq =
    if not attached || not marker_enabled then (unknown, 0) else elim marker [
      | none ↦ (if seq == 0 then clean else mismatch, 0)
      | some n ↦ elim (n - seq) [ zero ↦ (clean, 0) | suc k ↦ (ambiguous, suc k) ]
    ]

module _ {M : Type 0} where
  -- What `_write_pending` saves.
  unfoldable pub pending_record : M → Agent M → Record M
  pending_record message a = record {
    fingerprint = a.fingerprint;
    done = false;
    step = a.step;
    env_seq = a.seq;
    n_calls = a.n_calls;
    cost = a.cost;
    resume_count = a.resume_count;
    replayed_commands = a.replayed_commands;
    messages = init a.messages;
    pending = some (record { message = message; first_seq = suc a.seq });
  }

  abbrev pub counted : Agent M → Agent M
  counted a = record a { step = suc a.step; message_count = length a.messages }

  -- What `_sdlcma_checkpoint` saves.
  unfoldable pub boundary_record : Bool → Agent M → Record M
  boundary_record done a = record {
    fingerprint = a.fingerprint;
    done = done;
    step = suc a.step;
    env_seq = a.seq;
    n_calls = a.n_calls;
    cost = a.cost;
    resume_count = a.resume_count;
    replayed_commands = a.replayed_commands;
    messages = a.messages;
    pending = none;
  }

  -- `_sdlcma_checkpoint`: the agent and what is saved, if anything.
  unfoldable pub checkpoint : (M → Bool) → (M → Bool) → Agent M → Agent M × Option (Record M)
  checkpoint is_assistant is_exit a = elim (last a.messages) [
    | none ↦ (a, none)
    | some m ↦
        if length a.messages == a.message_count || is_assistant m
        then (a, none)
        else (counted a, some (boundary_record (is_exit m) a))
  ]

  -- `_load_record`
  unfoldable pub load_record : Agent M → Option (Record M) → Option (Record M)
  load_record a none = none
  load_record a (some r) = if text_eq r.fingerprint a.fingerprint then some r else none

  abbrev pub with_pending : List M → Option (Pending M) → List M
  with_pending ms none = ms
  with_pending ms (some p) = ms ++ (p.message ∷ [])

  -- `_restore`
  unfoldable pub restore : Record M → Agent M → Agent M
  restore r a = record a {
    messages = with_pending r.messages r.pending;
    n_calls = r.n_calls;
    cost = r.cost;
    step = r.step;
    resume_count = suc r.resume_count;
    replayed_commands = r.replayed_commands;
    pending = r.pending;
    message_count = length (with_pending r.messages r.pending);
  }

  abbrev pub align : ℕ → Agent M → Agent M
  align seq a = record a { seq = seq }

  abbrev pub continuing : Agent M → Agent M
  continuing a = record a { resumed_from_step = some a.step }

  -- `_reconcile`, with the verdict of the environment; `true` is the policy `rerun`. The error of an
  -- unusable policy is logged, and the agent stays as it was restored.
  unfoldable pub reconcile_agent : Policy → Verdict × ℕ → Agent M → Resumed M
  reconcile_agent policy (clean, n) a = goes_on (continuing a)
  reconcile_agent policy (unknown, n) a = goes_on (continuing a)
  reconcile_agent (some true) (ambiguous, n) a =
      goes_on (continuing (record a { replayed_commands = a.replayed_commands + max 1 n }))
  reconcile_agent (some false) (ambiguous, n) a = aborted
  reconcile_agent none (ambiguous, n) a = goes_on a
  reconcile_agent policy (mismatch, n) a = aborted

  -- The part of `_sdlcma_resume` after the agent was restored.
  unfoldable pub continue_from : Policy → (ℕ → Verdict × ℕ) → ℕ → Agent M → Resumed M
  unfolding reconcile_agent
  continue_from policy verdict env_seq a = elim a.pending [
    | some p ↦ goes_on (continuing (align (p.first_seq - 1) a))
    | none ↦ reconcile_agent policy (verdict env_seq) (align env_seq a)
  ]

  -- `_sdlcma_resume`
  unfoldable pub resume : Policy → (ℕ → Verdict × ℕ) → Option (Record M) → Agent M → Resumed M
  unfolding load_record restore continue_from
  resume policy verdict stored a = elim (load_record a stored) [
    | none ↦ goes_on a
    | some r ↦ if r.done then goes_on a else continue_from policy verdict r.env_seq (restore r a)
  ]

module _ {M C O : Type 0} (effect : Text → C → C × O) (finished : O → Bool)
    (commands : M → List Text) (observe : M → List O → List M) where
  -- The commands of a message, with their observations.
  unfoldable pub act : M → Agent M → Container C O → Option (Agent M × Container C O)
  act m a w = do
    ran ← execute_actions effect finished (suc a.seq) (commands m) w
    some (record a { messages = a.messages ++ observe m ran.0; seq = a.seq + length ran.0 }, ran.1)

  -- `step`, where `asked` is what the model answers if it is asked, with the cost of the call.
  unfoldable pub step : M × ℕ → Agent M → Container C O → Option (Agent M × Container C O)
  unfolding act
  step asked a w = elim a.pending [
    | some p ↦ act p.message (record a { pending = none }) w
    | none ↦
        act asked.0
          (record a {
            messages = a.messages ++ (asked.0 ∷ []);
            n_calls = suc a.n_calls;
            cost = a.cost + asked.1;
            message_count = suc (length a.messages);
          })
          w
  ]
