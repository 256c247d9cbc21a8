-- ===== src/Worker/Ledger/Kills.antt =====
-- What the death of a worker of bf_worker/agents/mini_resume_env.py within the commands of a message leaves.
use dev_harness.Base.{
  ℕ, zero, suc, ◌<◌, ◌≡◌, refl, sym, ap, subst, inl, inr, Bool, true, false, Option, none, some,
  List, [], ◌∷◌, arith, if◌then◌else◌, Bool-cases,
}
use dev_harness.Base.Text.{Text}
use dev_harness.Worker.Ledger.{
  Container, Cut, cleared, cut_off, probe, write_cmd, needs_issue, execute, execute_actions,
  and_then, killed, prepend,
}
use dev_harness.Worker.Ledger.Commands.{
  issued, Ran, execute-Ran, execute_needed, execute-cases, cut_off-Ran, later-Ran, issued-cleared,
  issued-write_cmd,
}

module _ {C O : Type 0} (effect : Text → C → C × O) where
  module _ (finished : O → Bool) where
    -- The commands after one whose output is there.
    unfoldable pub go_on : ℕ → List Text → O → Container C O → Option (List O × Container C O)
    go_on seq commands o w =
        if finished o
        then some (o ∷ [], w)
        else prepend o (execute_actions effect finished (suc seq) commands w)

    pub run-Ran :
        (seq : ℕ) (c : Text) (commands : List Text) (o : O) (w : Container C O)
        → Ran effect seq c o w
        → execute_actions effect finished seq (c ∷ commands) w ≡ go_on seq commands o w
    unfolding execute_actions go_on
    run-Ran seq c commands o w r = rw (execute-Ran effect seq c o w r) refl

    pub run_needed :
        (seq : ℕ) (c : Text) (commands : List Text) (w : Container C O)
        → needs_issue c (probe seq w) ≡ true
        → execute_actions effect finished seq (c ∷ commands) w
          ≡ go_on seq commands (effect c w.testbed).1 (issued effect seq c w)
    unfolding execute_actions go_on
    run_needed seq c commands w h = rw (execute_needed effect seq c w h) refl

    pub go_on-cleared :
        (seq : ℕ) (c : Text) (commands : List Text) (w : Container C O)
        → go_on seq commands
            (effect c (cut_off cleared seq c w).testbed).1
            (issued effect seq c (cut_off cleared seq c w))
          ≡ go_on seq commands (effect c w.testbed).1 (issued effect seq c w)
    unfolding cut_off
    go_on-cleared seq c commands w =
        ap (go_on seq commands (effect c w.testbed).1) (issued-cleared effect seq c w)

    pub go_on-write_cmd :
        (seq : ℕ) (c : Text) (commands : List Text) (w : Container C O)
        → go_on seq commands
            (effect c (write_cmd seq c w).testbed).1
            (issued effect seq c (write_cmd seq c w))
          ≡ go_on seq commands (effect c w.testbed).1 (issued effect seq c w)
    unfolding write_cmd
    go_on-write_cmd seq c commands w =
        ap (go_on seq commands (effect c w.testbed).1) (issued-write_cmd effect seq c w)

    -- Where the kill leaves the container.
    unfoldable pub after : Cut → ℕ → ℕ → List Text → O → Container C O → Container C O
    after cut n seq commands o w =
        if finished o then w else killed effect finished cut n (suc seq) commands w

    pub killed_refused :
        (cut : Cut) (n seq : ℕ) (c : Text) (commands : List Text) (w : Container C O)
        → needs_issue c (probe seq w) ≡ false
        → execute effect seq c w ≡ none
        → killed effect finished cut n seq (c ∷ commands) w ≡ w
    unfolding killed and_then
    killed_refused cut zero seq c commands w h e = rw (h, e) refl
    killed_refused cut (suc n) seq c commands w h e = rw (h, e) refl

    pub killed_done :
        (cut : Cut) (n seq : ℕ) (c : Text) (commands : List Text) (o : O) (w : Container C O)
        → needs_issue c (probe seq w) ≡ false
        → Ran effect seq c o w
        → killed effect finished cut n seq (c ∷ commands) w ≡ after cut n seq commands o w
    unfolding killed and_then after
    killed_done cut zero seq c commands o w h r = rw (h, execute-Ran effect seq c o w r) refl
    killed_done cut (suc n) seq c commands o w h r = rw (h, execute-Ran effect seq c o w r) refl

    pub killed_cut :
        (cut : Cut) (seq : ℕ) (c : Text) (commands : List Text) (w : Container C O)
        → needs_issue c (probe seq w) ≡ true
        → killed effect finished cut zero seq (c ∷ commands) w ≡ cut_off cut seq c w
    unfolding killed
    killed_cut cut seq c commands w h = rw h refl

    pub killed_later :
        (cut : Cut) (n seq : ℕ) (c : Text) (commands : List Text) (w : Container C O)
        → needs_issue c (probe seq w) ≡ true
        → killed effect finished cut (suc n) seq (c ∷ commands) w
          ≡ after cut n seq commands (effect c w.testbed).1 (issued effect seq c w)
    unfolding killed and_then after
    killed_later cut n seq c commands w h = rw (h, execute_needed effect seq c w h) refl

    after-Ran :
        (commands : List Text) (cut : Cut) (n k seq : ℕ) (c : Text) (o out : O) (w : Container C O)
        → Ran effect k c o w
        → Ran effect k c o (killed effect finished cut n (suc seq) commands w)
        → Ran effect k c o (after cut n seq commands out w)
    unfolding after
    after-Ran commands cut n k seq c o out w now later = elim (Bool-cases (finished out)) [
      | inl e ↦ rw e now
      | inr e ↦ rw e later
    ]

    -- A slot stays as it is when the worker dies in later commands.
    pub killed-Ran :
        (commands : List Text) (cut : Cut) (n k seq : ℕ) (c : Text) (o : O) (w : Container C O)
        → k < seq
        → Ran effect k c o w
        → Ran effect k c o (killed effect finished cut n seq commands w)
    killed-Ran [] cut n k seq c o w h r = unfold killed in r
    killed-Ran (d ∷ commands) cut n k seq c o w h r =
        elim (Bool-cases (needs_issue d (probe seq w))) [
          | inr done ↦ elim (execute-cases effect seq d w done) [
            | inl e ↦
                subst (Ran effect k c o) (sym (killed_refused cut n seq d commands w done e)) r
            | inr (out, ran) ↦
                subst (Ran effect k c o) (sym (killed_done cut n seq d commands out w done ran)) (
                  after-Ran commands cut n k seq c o out w r
                    (killed-Ran commands cut n k (suc seq) c o w (omega (arith, h)) r))
          ]
          | inl needed ↦
              by_count n needed
                (λ i v ran. killed-Ran commands cut i k (suc seq) c o v (omega (arith, h)) ran)
        ]
      where
        by_count :
            (n : ℕ)
            → needs_issue d (probe seq w) ≡ true
            → ((i : ℕ) (v : Container C O)
                → Ran effect k c o v
                → Ran effect k c o (killed effect finished cut i (suc seq) commands v))
            → Ran effect k c o (killed effect finished cut n seq (d ∷ commands) w)
        by_count zero needed later =
            subst (Ran effect k c o) (sym (killed_cut cut seq d commands w needed))
              (cut_off-Ran effect cut k seq c d o w h r)
        by_count (suc i) needed later =
            let now = later-Ran effect k seq c d o w h r in
            subst (Ran effect k c o) (sym (killed_later cut i seq d commands w needed)) (
              after-Ran commands cut i k seq c o _ (issued effect seq d w) now
                (later i (issued effect seq d w) now))
