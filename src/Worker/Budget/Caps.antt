-- ===== src/Worker/Budget/Caps.antt =====
-- What `check` and `record_call` of bf_worker/services/budget.py promise together.
use dev_harness.Base.{
  ℕ, ◌*◌, ◌≤◌, ◌<◌, ◌≡◌, refl, Option, none, some, ℤ, List, [], ◌∷◌, arith, ◌≢◌, ◌∙◌, inl, inr, leb,
  leb→le, Bool-cases, Option-cases,
}
use dev_harness.Worker.Budget.{
  Reason, RunBudget, check, record_call, total_tokens, elapsed_ms, first_cap, over_cost,
}

-- A call as `record_call` gets it.
pub record Charge : Type 0 where
  pub input : ℤ
  pub output : ℤ
  pub cost : Option ℤ

unfoldable pub record_calls : List Charge → RunBudget → RunBudget
record_calls [] b = b
record_calls (c ∷ cs) b = record_calls cs (record_call c.input c.output c.cost b)

-- Some cap is reached at the time `now`.
pub data CapReached (now : ℕ) (b : RunBudget) : Type 0 where
  calls_reached : b.max_calls ≤ b.calls → CapReached now b
  tokens_reached : b.max_tokens ≤ total_tokens b → CapReached now b
  cost_reached :
      (cap cost : ℕ)
      → b.max_cost_usd ≡ some cap
      → b.cost_usd ≡ some cost
      → cap ≤ cost
      → CapReached now b
  wallclock_reached : b.max_wallclock_s * 1000 ≤ elapsed_ms now b → CapReached now b

-- A run that has no reason yet passes `check` only if every cap still has room.
pub check-none_room :
    (now : ℕ) (b : RunBudget)
    → (check now b).1 ≡ none
    → (b.calls < b.max_calls)
      × (total_tokens b < b.max_tokens)
      × (elapsed_ms now b < b.max_wallclock_s * 1000)
unfolding check
check-none_room now b h = ground arith

over_cost-CapReached :
    (now : ℕ) (b : RunBudget) (cap cost : Option ℕ) (r : Reason)
    → b.max_cost_usd ≡ cap
    → b.cost_usd ≡ cost
    → over_cost cap cost ≡ some r
    → CapReached now b
over_cost-CapReached now b (some cap) (some cost) r p q h = cost_reached cap cost p q (ground arith)
over_cost-CapReached now b (some cap) none r p q h = cc
over_cost-CapReached now b none cost r p q h = cc

-- A test of a cap that passes names the cap.
first_cap-CapReached :
    (now : ℕ) (b : RunBudget) (r : Reason) → first_cap now b ≡ some r → CapReached now b
unfolding first_cap
first_cap-CapReached now b r h = elim (Bool-cases (leb b.max_calls b.calls)) [
  | inl e ↦ calls_reached (leb→le _ _ e)
  | inr e ↦ elim (Bool-cases (leb b.max_tokens (total_tokens b))) [
    | inl e' ↦ tokens_reached (leb→le _ _ e')
    | inr e' ↦ elim (Option-cases (over_cost b.max_cost_usd b.cost_usd)) [
      | inr (x, p) ↦ over_cost-CapReached now b b.max_cost_usd b.cost_usd x refl refl p
      | inl p ↦ wallclock_reached (ground arith)
    ]
  ]
]

first_cap_found : (now : ℕ) (b : RunBudget) → CapReached now b → first_cap now b ≢ none
unfolding first_cap
first_cap_found now b (calls_reached h) = ground arith
first_cap_found now b (tokens_reached h) = ground arith
first_cap_found now b (cost_reached cap cost p q h) = ground arith
first_cap_found now b (wallclock_reached h) = ground arith

-- On a budget with no reason yet, `check` returns a reason exactly when a cap is reached: the calls,
-- the tokens, the cost where both a cap and a cost are known, or the clock.
pub check_iff_reached :
    (now : ℕ) (b : RunBudget)
    → b.exhausted_reason ≡ none
    → ((r : Reason) → (check now b).1 ≡ some r → CapReached now b)
      × (CapReached now b → (check now b).1 ≢ none)
unfolding check
check_iff_reached now b fresh = (
  λ r h. first_cap-CapReached now b r (ground arith),
  λ c e. first_cap_found now b c (ground arith),
)

reason-record_calls :
    (b : RunBudget) (cs : List Charge) → (record_calls cs b).exhausted_reason ≡ b.exhausted_reason
unfolding record_calls record_call
reason-record_calls b [] = refl
reason-record_calls b (c ∷ cs) = reason-record_calls (record_call c.input c.output c.cost b) cs

check_keeps :
    (now : ℕ) (b : RunBudget) (r : Reason) → b.exhausted_reason ≡ some r → (check now b).1 ≡ some r
unfolding check
check_keeps now b r h = ground arith

reason-check : (now : ℕ) (b : RunBudget) → (check now b).0.exhausted_reason ≡ (check now b).1
unfolding check
reason-check now b = ground arith

-- The first reason stays, whatever is charged afterwards and however much later it is asked for.
pub first_reason_stays :
    (now later : ℕ) (b : RunBudget) (r : Reason) (cs : List Charge)
    → (check now b).1 ≡ some r
    → (check later (record_calls cs (check now b).0)).1 ≡ some r
first_reason_stays now later b r cs h =
    check_keeps later _ r (reason-record_calls (check now b).0 cs ∙ reason-check now b ∙ h)
