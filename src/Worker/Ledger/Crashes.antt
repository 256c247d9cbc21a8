-- ===== src/Worker/Ledger/Crashes.antt =====
-- A worker of bf_worker/agents/mini_resume_env.py that dies within the commands of a message, and the
-- next one, which runs them again from the same number.
use dev_harness.Base.{ℕ, ◌≡◌, sym, ◌∙◌, ◌⊎◌, inl, inr, Bool, Option, none, List, [], ◌∷◌}
use dev_harness.Base.Text.{Text}
use dev_harness.Worker.Ledger.{Container, Cut, part, killed}

-- A death of a worker: how many commands it had issued, and what came through of the next one.
pub record Death : Type 0 where
  pub issued_before : ℕ
  pub cut : Cut

pub data Torn : Cut → Type 0 where
  torn : (n : ℕ) → Torn (part n)

abbrev pub AnyTorn : List Death → Type 0
AnyTorn [] = ⊥
AnyTorn (d ∷ deaths) = Torn d.cut ⊎ AnyTorn deaths

-- The same result, or a refusal for a reason.
abbrev pub Survives : {A : Type 0} → Type 0 → Option A → Option A → Type 0
Survives reason x y = (x ≡ y) ⊎ ((x ≡ none) × reason)

pub via :
    {A T : Type 0} {x x' y y' : Option A} → x ≡ x' → y ≡ y' → Survives T x' y' → Survives T x y
via a b (inl p) = inl (a ∙ p ∙ sym b)
via a b (inr (p, t)) = inr (a ∙ p, t)

module _ {C O : Type 0} (effect : Text → C → C × O) where
  module _ (finished : O → Bool) where
    -- The container after several workers died within the same commands.
    pub died : List Death → ℕ → List Text → Container C O → Container C O
    died [] seq commands w = w
    died (d ∷ later) seq commands w =
        died later seq commands (killed effect finished d.cut d.issued_before seq commands w)
