-- ===== src/Worker/Resume/Steps.antt =====
-- A step of the agent of bf_worker/agents/mini_resume.py that workers died in, and that the next one
-- goes on with.
use dev_harness.Base.{suc, ◌-◌, Option, none, some}
use dev_harness.Base.Text.{Text}
use dev_harness.Worker.Resume.{Agent, pending_record, restore, align, continuing}

-- What counts of an agent, less the counts of resumes.
abbrev pub view : {M : Type 0} → Agent M → Agent M
view a = record a { message_count = 0; resume_count = 0; resumed_from_step = none; pending = none }

abbrev pub viewed : {M W : Type 0} → Option (Agent M × W) → Option (Agent M × W)
viewed none = none
viewed (some (a, w)) = some (view a, w)

module _ {M : Type 0} where
  -- The agent that `resume` makes of a record with a pending message.
  abbrev woken : M → Agent M → Agent M → Agent M
  woken m a b = continuing (align (suc a.seq - 1) (restore (pending_record m a) b))
