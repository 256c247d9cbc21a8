-- ===== src/Worker/Daemon/Slots.antt =====
-- How many workers a daemon of bf_worker/worker_daemon.py runs.
use dev_harness.Base.{
  ℕ, ◌≤◌, ◌<◌, ◌≡◌, refl, sym, ◌∙◌, ap, subst, inl, inr, Option, none, some, List, [], ◌∷◌, ◌++◌,
  String, arith, length, Bool-cases, Option-cases, sub_ℕ, is_pos, leb, ◌&&◌,
}
use dev_harness.Base.Dict
use dev_harness.Base.Dict.{
  Dict, Unique, Unique-insert, Unique-erase, length-insert, length-erase, insert_new, erase-append,
}
use dev_harness.Worker.Daemon.{
  Daemon, with_process, Request, set_owner, xack, can_accept, free_slots, accept, reject,
  take_message, reap,
}

-- A step of the daemon: a message of its inbox, where `Allowed` restricts the tasks that come, or the
-- exit of one of its workers.
pub data Step (Allowed : Dict String → Daemon → Type 0) (d d' : Daemon) : Type 0 where
  message :
      (free_memory : ℕ) (process : Option ℕ) (msg_id : String) (task : Dict String)
      (asked : List Request)
      → Allowed task d
      → take_message free_memory process msg_id task d ≡ some (asked, d')
      → Step Allowed d d'
  exit :
      (bug_id : String) (process : ℕ) (before after : List (String × ℕ))
      → d.waiting ≡ before ++ ((bug_id, process) ∷ after)
      → (reap bug_id (before ++ after) d).1 ≡ d'
      → Step Allowed d d'

pub data Steps (Allowed : Dict String → Daemon → Type 0) (d : Daemon) : Daemon → Type 0 where
  stay : (d' : Daemon) → d ≡ d' → Steps Allowed d d'
  go : (d' d'' : Daemon) → Steps Allowed d d' → Step Allowed d' d'' → Steps Allowed d d''

-- Every task is allowed; or the task's bug has no worker here.
abbrev pub Any : Dict String → Daemon → Type 0
Any task d = Unit

abbrev pub New : Dict String → Daemon → Type 0
New task d =
    (bug_id : String) → Dict.lookup "bug_id" task ≡ some bug_id → Dict.lookup bug_id d.active ≡ none

-- The daemon at its start.
abbrev pub Idle : Daemon → Type 0
Idle d = (d.active ≡ []) × (d.waiting ≡ [])

accepted-cases :
    (process : Option ℕ) (msg_id : String) (task : Dict String) (d d' : Daemon)
    (asked : List Request) (P : Daemon → Type 0)
    → accept msg_id task process d ≡ some (asked, d')
    → ((bug_id : String) (p : ℕ)
        → Dict.lookup "bug_id" task ≡ some bug_id
        → P (with_process bug_id p d))
    → P d'
unfolding accept
accepted-cases none msg_id task d d' asked P e new =
    elim (Option-cases (Dict.lookup "bug_id" task)) [
      | inl q ↦ absurd (let bad : none ≡ some (asked, d') = rw (q, accept) at e in cc)
      | inr (bug_id, q) ↦ absurd (let bad : none ≡ some (asked, d') = rw (q, accept) at e in cc)
    ]
accepted-cases (some p) msg_id task d d' asked P e new =
    elim (Option-cases (Dict.lookup "bug_id" task)) [
      | inl q ↦ absurd (let bad : none ≡ some (asked, d') = rw (q, accept) at e in cc)
      | inr (bug_id, q) ↦
          let same : some (set_owner bug_id ∷ xack msg_id ∷ [], with_process bug_id p d)
              ≡ some (asked, d') =
            rw (q, accept) at e in
          let state : with_process bug_id p d ≡ d' = cc in subst P state (new bug_id p q)
    ]

-- The only ways in which a message changes the state.
taken-cases :
    (free_memory : ℕ) (process : Option ℕ) (msg_id : String) (task : Dict String) (d d' : Daemon)
    (asked : List Request) (P : Daemon → Type 0)
    → take_message free_memory process msg_id task d ≡ some (asked, d')
    → P d
    → ((bug_id : String) (p : ℕ)
        → Dict.lookup "bug_id" task ≡ some bug_id
        → length d.active < d.concurrency
        → P (with_process bug_id p d))
    → P d'
unfolding take_message can_accept free_slots
taken-cases free_memory process msg_id task d d' asked P e same new =
    elim (Bool-cases
      (is_pos (sub_ℕ d.concurrency (length d.active)) && leb d.min_free_memory_bytes free_memory)) [
        | inr q ↦
            let unchanged : some (reject msg_id task d, d) ≡ some (asked, d') = rw q at e in
            let state : d ≡ d' = cc in subst P state same
        | inl q ↦
            let room : length d.active < d.concurrency = ground arith in
            accepted-cases process msg_id task d d' asked P (rw q at e)
              (λ bug_id p h. new bug_id p h room)
      ]

-- The table of workers fits the concurrency, which never changes.
Fits : ℕ → Daemon → Type 0
Fits n d = (d.concurrency ≡ n) × (length d.active ≤ n)

step-Fits :
    (Allowed : Dict String → Daemon → Type 0) (n : ℕ) (d d' : Daemon)
    → Step Allowed d d'
    → Fits n d
    → Fits n d'
unfolding Fits reap
step-Fits Allowed n d d' (message free_memory process msg_id task asked allowed e) h =
    taken-cases free_memory process msg_id task d d' asked (Fits n) e h
      (λ bug_id p named room. (h.0, omega (arith, room, h.0, length-insert bug_id p d.active)))
step-Fits Allowed n d d' (exit bug_id process before after here e) h =
    subst (Fits n) e (h.0, omega (arith, h.1, length-erase bug_id d.active))

-- A daemon that starts with no worker never has more bugs in its table than its concurrency, whatever
-- tasks come.
pub slots_bound :
    (Allowed : Dict String → Daemon → Type 0) (d d' : Daemon)
    → Idle d
    → Steps Allowed d d'
    → (d'.concurrency ≡ d.concurrency) × (length d'.active ≤ d.concurrency)
unfolding Fits
slots_bound Allowed d d' idle (stay d1 e) =
    subst (Fits d.concurrency) e (refl, rw (idle.0) (omega arith))
slots_bound Allowed d d' idle (go d1 d2 before last) =
    step-Fits Allowed d.concurrency d1 d2 last (slots_bound Allowed d d1 idle before)

-- The table is the list of the running workers.
Faithful : Daemon → Type 0
Faithful d = (d.active ≡ d.waiting) × Unique d.active

step-Faithful : (d d' : Daemon) → Step New d d' → Faithful d → Faithful d'
unfolding Faithful reap
step-Faithful d d' (message free_memory process msg_id task asked allowed e) h =
    taken-cases free_memory process msg_id task d d' asked Faithful e h (λ bug_id p named room. (
      insert_new bug_id p d.active (allowed bug_id named) ∙ ap (λ l. l ++ ((bug_id, p) ∷ [])) h.0,
      Unique-insert bug_id p d.active h.1,
    ))
step-Faithful d d' (exit bug_id process before after here e) h =
    let all_here : d.active ≡ before ++ ((bug_id, process) ∷ after) = h.0 ∙ here in
    let unique : Unique (before ++ ((bug_id, process) ∷ after)) = subst Unique all_here h.1 in
    subst Faithful e (
      ap (Dict.erase bug_id) all_here ∙ erase-append bug_id process before after unique,
      Unique-erase bug_id d.active h.1,
    )

-- If no task comes for a bug that has a worker here, the table is exactly the list of the workers that
-- run, each bug once, and no more of them run than the concurrency allows.
pub workers_bound :
    (d d' : Daemon)
    → Idle d
    → Steps New d d'
    → (d'.active ≡ d'.waiting) × Unique d'.active × (length d'.waiting ≤ d.concurrency)
unfolding Faithful
workers_bound d d' idle (stay d1 e) =
    subst (λ s. (s.active ≡ s.waiting) × Unique s.active × (length s.waiting ≤ d.concurrency)) e
      (idle.0 ∙ sym idle.1, subst Unique (sym idle.0) tt, rw (idle.1) (omega arith))
workers_bound d d' idle (go d1 d2 before last) =
    let rest = workers_bound d d1 idle before in
    let now : Faithful d2 = step-Faithful d1 d2 last (rest.0, rest.1) in
    (
      now.0,
      now.1,
      subst (λ l. length l ≤ d.concurrency) now.0
          (slots_bound New d d2 idle (go d1 d2 before last)).1,
    )
