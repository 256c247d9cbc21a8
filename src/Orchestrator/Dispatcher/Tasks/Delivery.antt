-- ===== src/Orchestrator/Dispatcher/Tasks/Delivery.antt =====
-- That each task of orchestrator/dispatcher.py goes to exactly one place.
use dev_harness.Base.{
  ℕ, ◌≡◌, refl, subst, true, false, Option, none, some, List, [], ◌∷◌, ◌<◌, String, arith, length,
  inl, inr, Option-cases, ◌⊎◌,
}
use dev_harness.Base.Dict
use dev_harness.Base.Dict.{Dict}
use dev_harness.Orchestrator.Spawner.{Job}
use dev_harness.Orchestrator.Dispatcher.{
  Dispatcher, Members, maybe_refresh_cache, choose_among, choose, choose_daemon,
}
use dev_harness.Orchestrator.Dispatcher.Choice.{
  Chosen, choose_among-Chosen, accepts, in_order, all_shut,
}
use dev_harness.Orchestrator.Dispatcher.Tasks.{
  Stream, inbox, pending, Command, xgroup_create, xadd, fields_of, send, spawn, spawn_raw,
}

-- The entries that the commands add to streams.
abbrev pub added : List Command → List (Stream × Dict String)
added [] = []
added (xgroup_create s g ∷ cs) = added cs
added (xadd s fields ∷ cs) = (s, fields) ∷ added cs

-- One entry is added: to the inbox of a daemon that is alive and has room, or, where no daemon is, to
-- the pending queue.
pub data Delivered (d : Dispatcher) (fields : Dict String) (cs : List Command) : Type 0 where
  to_daemon :
      (id : String)
      → accepts d id ≡ true
      → added cs ≡ (inbox id, fields) ∷ []
      → Delivered d fields cs
  to_pending :
      ((id : String) → accepts d id ≡ false)
      → added cs ≡ (pending, fields) ∷ []
      → Delivered d fields cs

abbrev Fits : Dispatcher → Option String → Type 0
Fits d none = (id : String) → accepts d id ≡ false
Fits d (some id) = accepts d id ≡ true

Chosen-Fits :
    (d : Dispatcher) (start : ℕ) (o : Option String × ℕ)
    → Chosen (accepts d) (in_order d) start o
    → Fits d o.0
Chosen-Fits d start (none, pointer) (shut, q) = all_shut d shut
Chosen-Fits d start (some id, pointer) (idx, first, q) = first.opens

nil_or_some : (ids : List String) → (ids ≡ []) ⊎ (0 < length ids)
nil_or_some [] = inl refl
nil_or_some (x ∷ xs) = inr (omega arith)

choose-Fits : (d : Dispatcher) → Fits d (choose d).0
unfolding choose choose_among
choose-Fits d = elim (nil_or_some (in_order d)) [
  | inl e ↦
      rw (e, choose_among)
        (all_shut d (λ i lt. absurd (
          let bad : i < length {A = String} [] = subst (λ l. i < length l) e lt in
          omega (arith, bad))))
  | inr h ↦ Chosen-Fits d _ _ (choose_among-Chosen (accepts d) (in_order d) d.judge_pointer h)
]

-- The commands of `spawn` for a choice.
sent-Delivered :
    (d : Dispatcher) (job : Job) (o : Option String)
    → Fits d o
    → Delivered d (fields_of job) (send job o)
sent-Delivered d job none h = to_pending h refl
sent-Delivered d job (some id) h = to_daemon id h refl

-- Whenever the cache can be refreshed, `spawn` adds the task to exactly one stream: the inbox of a
-- daemon that is then alive and has room, or the pending queue if no daemon is.
pub spawn_delivers_once :
    (now : ℕ) (members : Members) (job : Job) (d d1 : Dispatcher)
    → maybe_refresh_cache now members d ≡ some d1
    → (cs : List Command) × (spawn now members job d ≡ some (cs, (choose d1).1))
      × Delivered d1 (fields_of job) cs
unfolding spawn choose_daemon
spawn_delivers_once now members job d d1 h = (
  send job (choose d1).0,
  rw (h, spawn, choose_daemon),
  sent-Delivered d1 job (choose d1).0 (choose-Fits d1),
)

abbrev pub added_of :
    Option (List Command × Dispatcher) → Option (List (Stream × Dict String) × Dispatcher)
added_of none = none
added_of (some (cs, d)) = some (added cs, d)

-- A task that is dispatched again from its fields goes where a new one would go, with the same fields,
-- and leaves the dispatcher in the same state; where the refresh raises, both raise.
pub spawn_raw-eq-spawn :
    (now : ℕ) (members : Members) (job : Job) (d : Dispatcher)
    → added_of (spawn_raw now members (fields_of job) d) ≡ added_of (spawn now members job d)
unfolding spawn spawn_raw Dict.lookup
spawn_raw-eq-spawn now members job d = elim (Option-cases (choose_daemon now members d)) [
  | inl e ↦ rw e
  | inr ((none, d'), e) ↦ rw e
  | inr ((some id, d'), e) ↦ rw e
]
