-- ===== src/Orchestrator/Router.antt =====
-- orchestrator/router.py: `MessageRouter.route`. The owner that a daemon has recorded for the bug is an
-- answer of Redis; a message goes to the inbox of the worker of the bug.
use dev_harness.Base.{
  ◌≡◌, Bool, true, false, not, ◌||◌, Option, none, some, List, [], ◌∷◌, String, str_eq, arith,
  if◌then◌else◌,
}
use dev_harness.Orchestrator.Registry.{Registry, is_active, get, exists}

-- A message for the inbox of a bug's worker.
pub record Delivery : Type 0 where
  pub bug_id : String
  pub raw : String

abbrev pub has_owner : Option String → Bool
has_owner none = false
has_owner (some owner) = not (str_eq owner "")

by_owner : Delivery → Option String → List Delivery × Bool
by_owner m owner = if has_owner owner then (m ∷ [], true) else ([], false)

-- `route`: what is written, and whether it was routed.
unfoldable pub route : Delivery → Option String → Registry → List Delivery × Bool
unfolding by_owner
route m owner r = elim (get m.bug_id r) [
  | none ↦ by_owner m owner
  | some e ↦ if is_active e then (m ∷ [], true) else by_owner m owner
]

-- A message is written to the inbox, once, exactly if the registry has an active worker for the bug or
-- a daemon owns it; otherwise nothing is written and the call says so.
pub route-exists :
    (m : Delivery) (owner : Option String) (r : Registry)
    → route m owner r
      ≡ (if exists m.bug_id r || has_owner owner then (m ∷ [], true) else ([], false))
unfolding route exists get
route-exists m owner r = ground arith
