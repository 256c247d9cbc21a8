-- ===== src/Worker/Ledger/Commands.antt =====
-- One command of bf_worker/agents/mini_resume_env.py: what its first probe finds, and what comes of it.
use dev_harness.Base.{
  ℕ, ◌<◌, ◌≡◌, refl, ap, ◌∙◌, ◌⊎◌, inl, inr, true, false, Option, none, some, Bool-cases,
  Option-cases, take,
}
use dev_harness.Base.Text.{Text, text_eq, text_eq_refl, text_eq→eq}
use dev_harness.Worker.Ledger.Directories.{
  put, get-put, put-put, get-put_other, put-clear, get-clear_same, get-clear_other,
}
use dev_harness.Worker.Ledger.{
  Slot, Container, Cut, nothing, cleared, part, whole, cut_off, probe, write_cmd, launch, harvest,
  issue, needs_issue, execute_probed, execute_if, execute,
}

module _ {C O : Type 0} (effect : Text → C → C × O) where
  -- The container after a command ran, with its output in the slot.
  abbrev pub issued : ℕ → Text → Container C O → Container C O
  issued k c w = record {
    testbed = (effect c w.testbed).0;
    slots = put k (record { command = c; outcome = some (effect c w.testbed).1 }) w.slots;
  }

  pub issue_lem : (k : ℕ) (c : Text) (w : Container C O) → issue effect k c w ≡ issued k c w
  unfolding issue launch write_cmd probe
  issue_lem k c w =
      rw (get-put k (record { command = c; outcome = none }) w.slots, issue, launch, probe)
        (ap (λ l. record { testbed = (effect c w.testbed).0; slots = l }) (put-put k _ _ w.slots))

  -- A slot with the output of its command.
  unfoldable pub Ran : ℕ → Text → O → Container C O → Type 0
  Ran k c o w = probe k w ≡ some (record { command = c; outcome = some o })

  pub harvest-Ran :
      (k : ℕ) (c : Text) (o : O) (w : Container C O) → Ran k c o w → harvest k w ≡ some (o, w)
  unfolding harvest Ran
  harvest-Ran k c o w h = rw (h, harvest) refl

  pub issued-Ran :
      (k : ℕ) (c : Text) (w : Container C O) → Ran k c (effect c w.testbed).1 (issued k c w)
  unfolding Ran probe
  issued-Ran k c w = get-put k _ w.slots

  pub execute-Ran :
      (k : ℕ) (c : Text) (o : O) (w : Container C O)
      → Ran k c o w
      → execute effect k c w ≡ some (o, w)
  unfolding execute execute_if execute_probed Ran
  execute-Ran k c o w h = rw (h, execute, text_eq_refl c) (harvest-Ran k c o w h)

  pub now_issued :
      (k : ℕ) (c : Text) (w : Container C O)
      → harvest k (issue effect k c w) ≡ some ((effect c w.testbed).1, issued k c w)
  now_issued k c w =
      ap (harvest k) (issue_lem k c w) ∙ harvest-Ran k c _ (issued k c w) (issued-Ran k c w)

  pub execute_probed_needed :
      (k : ℕ) (c : Text) (o : Option (Slot O)) (w : Container C O)
      → needs_issue c o ≡ true
      → execute_probed effect k c o w ≡ some ((effect c w.testbed).1, issued k c w)
  unfolding needs_issue execute_probed
  execute_probed_needed k c none w h = now_issued k c w
  execute_probed_needed k c (some slot) w h = elim (Bool-cases (text_eq slot.command c)) [
    | inr e ↦ absurd (let bad : false ≡ true = rw e at h in cc)
    | inl e ↦ elim (Option-cases slot.outcome) [
      | inl q ↦ rw (e, q) (now_issued k c w)
      | inr (o, q) ↦ absurd (let bad : false ≡ true = rw (e, q) at h in cc)
    ]
  ]

  pub execute_needed :
      (k : ℕ) (c : Text) (w : Container C O)
      → needs_issue c (probe k w) ≡ true
      → execute effect k c w ≡ some ((effect c w.testbed).1, issued k c w)
  unfolding execute execute_if
  execute_needed k c w h = execute_probed_needed k c (probe k w) w h

  pub slot_of :
      (c : Text) (slot : Slot O) (o : O)
      → text_eq slot.command c ≡ true
      → slot.outcome ≡ some o
      → slot ≡ record { command = c; outcome = some o }
  slot_of c slot o e q = λ i. record { command = text_eq→eq slot.command c e i; outcome = q i }

  -- What is so when nothing is to be issued.
  pub probed-cases :
      (k : ℕ) (c : Text) (o : Option (Slot O)) (w : Container C O)
      → needs_issue c o ≡ false
      → (execute_probed effect k c o w ≡ none)
        ⊎ ((out : O) × (o ≡ some (record { command = c; outcome = some out })))
  unfolding needs_issue execute_probed
  probed-cases k c none w h = cc
  probed-cases k c (some slot) w h = elim (Bool-cases (text_eq slot.command c)) [
    | inr e ↦ inl (rw e refl)
    | inl e ↦ elim (Option-cases slot.outcome) [
      | inl q ↦ absurd (let bad : true ≡ false = rw (e, q) at h in cc)
      | inr (out, q) ↦ inr (out, ap some (slot_of c slot out e q))
    ]
  ]

  pub execute-cases :
      (k : ℕ) (c : Text) (w : Container C O)
      → needs_issue c (probe k w) ≡ false
      → (execute effect k c w ≡ none) ⊎ ((o : O) × Ran k c o w)
  unfolding execute execute_if Ran
  execute-cases k c w h = probed-cases k c (probe k w) w h

  pub write_cmd-Ran :
      (j k : ℕ) (c d : Text) (o : O) (w : Container C O)
      → j < k
      → Ran j c o w
      → Ran j c o (write_cmd k d w)
  unfolding Ran probe write_cmd
  write_cmd-Ran j k c d o w h r = get-put_other j k _ w.slots h ∙ r

  pub cut_off-Ran :
      (cut : Cut) (j k : ℕ) (c d : Text) (o : O) (w : Container C O)
      → j < k
      → Ran j c o w
      → Ran j c o (cut_off cut k d w)
  unfolding cut_off
  cut_off-Ran nothing j k c d o w h r = r
  cut_off-Ran cleared j k c d o w h r = unfold Ran probe in get-clear_other j k w.slots h ∙ r
  cut_off-Ran (part n) j k c d o w h r = write_cmd-Ran j k c (take n d) o w h r
  cut_off-Ran whole j k c d o w h r = write_cmd-Ran j k c d o w h r

  pub later-Ran :
      (j k : ℕ) (c d : Text) (o : O) (w : Container C O)
      → j < k
      → Ran j c o w
      → Ran j c o (issued k d w)
  unfolding Ran probe
  later-Ran j k c d o w h r = get-put_other j k _ w.slots h ∙ r

  pub write_cmd_needed :
      (k : ℕ) (c : Text) (w : Container C O) → needs_issue c (probe k (write_cmd k c w)) ≡ true
  unfolding probe write_cmd needs_issue
  write_cmd_needed k c w =
      rw (get-put k (record { command = c; outcome = none }) w.slots, text_eq_refl c) refl

  pub issued-write_cmd :
      (k : ℕ) (c : Text) (w : Container C O) → issued k c (write_cmd k c w) ≡ issued k c w
  unfolding write_cmd
  issued-write_cmd k c w =
      ap (λ l. record { testbed = (effect c w.testbed).0; slots = l }) (put-put k _ _ w.slots)

  pub cleared_needed :
      (k : ℕ) (c : Text) (w : Container C O)
      → needs_issue c (probe k (cut_off cleared k c w)) ≡ true
  unfolding probe cut_off needs_issue
  cleared_needed k c w = rw (get-clear_same k w.slots) refl

  pub issued-cleared :
      (k : ℕ) (c : Text) (w : Container C O) → issued k c (cut_off cleared k c w) ≡ issued k c w
  unfolding cut_off
  issued-cleared k c w =
      ap (λ l. record { testbed = (effect c w.testbed).0; slots = l }) (put-clear k _ w.slots)

  -- A slot of another command is refused.
  pub execute-foreign :
      (k : ℕ) (c d : Text) (w : Container C O)
      → text_eq d c ≡ false
      → execute effect k c (write_cmd k d w) ≡ none
  unfolding execute execute_if execute_probed probe write_cmd
  execute-foreign k c d w h =
      rw (get-put k (record { command = d; outcome = none }) w.slots, execute, execute_if, probe, h)
        refl
