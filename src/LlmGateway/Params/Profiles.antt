-- ===== src/LlmGateway/Params/Profiles.antt =====
-- What the reasoning profile makes of each parameter.
use dev_harness.Base.{
  ◌≡◌, refl, subst, ◌∙◌, ap, Bool, false, ◌||◌, Option, none, some, List, [], ◌∷◌, String, any,
  str_eq, eq_iff, arith, Bool-cases, inl, inr, if◌then◌else◌,
}
use mathlib.Core.Path.{ap₂}
use dev_harness.Base.Dict
use dev_harness.Base.Dict.{Dict, lookup-insert, lookup-erase}
use dev_harness.Base.Text.{Text}
use dev_harness.Base.Json.{Json, str}
use dev_harness.LlmGateway.Config.Backends.{reasoning_profile}
use dev_harness.LlmGateway.Params.{
  unsupported, pop_all, add_missing, setdefault, move, rename, apply_param_profile,
}

lookup-pop_all :
    (k : String) (ks : List String) (body : Dict Json)
    → Dict.lookup k (pop_all ks body) ≡ (if any (str_eq k) ks then none else Dict.lookup k body)
lookup-pop_all k [] body = refl
lookup-pop_all k (j ∷ ks) body =
    ground (
      arith,
      lookup-pop_all k ks (Dict.erase j body),
      lookup-erase j k body,
      eq_iff j k,
      eq_iff k j,
    )

abbrev or_later : Option Json → Option Json → Option Json
or_later none o = o
or_later (some v) o = some v

lookup-add_missing :
    (k key : String) (v : Json) (o : Option Json) (body : Dict Json)
    → Dict.lookup key body ≡ o
    → Dict.lookup k (add_missing o key v body)
      ≡ (if str_eq key k then or_later o (some v) else Dict.lookup k body)
lookup-add_missing k key v none body e = lookup-insert key k v body
lookup-add_missing k key v (some w) body e = ground (arith, eq_iff key k, e)

lookup-setdefault :
    (k key : String) (v : Json) (body : Dict Json)
    → Dict.lookup k (setdefault key v body)
      ≡ (if str_eq key k then or_later (Dict.lookup key body) (some v) else Dict.lookup k body)
lookup-setdefault k key v body = lookup-add_missing k key v (Dict.lookup key body) body refl

or_later-none : (o : Option Json) → or_later o none ≡ o
or_later-none none = refl
or_later-none (some v) = refl

lookup-move :
    (k old new : String) (o : Option Json) (body : Dict Json)
    → Dict.lookup old body ≡ o
    → Dict.lookup k (move o old new body) ≡ (
        if str_eq old k
        then none
        else if str_eq new k
        then or_later (Dict.lookup new body) o
        else Dict.lookup k body)
lookup-move k old new none body e =
    ground (arith, eq_iff old k, eq_iff new k, e, or_later-none (Dict.lookup new body))
lookup-move k old new (some v) body e =
    ground (arith, lookup-erase old k (setdefault new v body), lookup-setdefault k new v body)

abbrev effort_default : Text → Option Json
effort_default [] = none
effort_default (c ∷ s) = some (str (c ∷ s))

-- What the rewritten body holds under a key.
unfoldable pub sent : Text → Dict Json → String → Option Json
sent effort body k =
    if any (str_eq k) unsupported || str_eq "max_tokens" k
    then none
    else if str_eq "max_completion_tokens" k
    then or_later (Dict.lookup k body) (Dict.lookup "max_tokens" body)
    else if str_eq "reasoning_effort" k
    then or_later (Dict.lookup k body) (effort_default effort)
    else Dict.lookup k body

-- What the body holds after the parameters were dropped and renamed.
abbrev renamed : Dict Json → String → Option Json
renamed body k =
    if any (str_eq k) unsupported || str_eq "max_tokens" k
    then none
    else if str_eq "max_completion_tokens" k
    then or_later (Dict.lookup k body) (Dict.lookup "max_tokens" body)
    else Dict.lookup k body

abbrev after : Dict Json → Dict Json
after body = rename "max_tokens" "max_completion_tokens" (pop_all unsupported body)

renamed-other :
    (k : String) (unsup old_key new_key : Bool) (x y here : Option Json)
    → new_key ≡ false
    → x ≡ (if unsup then none else here)
    → (if old_key then none else if new_key then y else x)
      ≡ (if unsup || old_key then none else if new_key then y else here)
renamed-other k unsup old_key new_key x y here e h = ground arith

lookup-renamed : (body : Dict Json) (k : String) → Dict.lookup k (after body) ≡ renamed body k
lookup-renamed body k =
    let left = pop_all unsupported body in
    let moved = λ (j : String).
      lookup-move j "max_tokens" "max_completion_tokens" (Dict.lookup "max_tokens" left) left
        refl in
    elim (Bool-cases (str_eq "max_completion_tokens" k)) [
      | inl e ↦
          subst (λ j. Dict.lookup j (after body) ≡ renamed body j)
            ((eq_iff "max_completion_tokens" k).0 e)
            (moved "max_completion_tokens"
              ∙ ap₂ or_later (lookup-pop_all "max_completion_tokens" unsupported body)
                  (lookup-pop_all "max_tokens" unsupported body))
      | inr e ↦
          moved k
          ∙ renamed-other k (any (str_eq k) unsupported) (str_eq "max_tokens" k)
              (str_eq "max_completion_tokens" k) (Dict.lookup k left)
              (or_later (Dict.lookup "max_completion_tokens" left) (Dict.lookup "max_tokens" left))
              (Dict.lookup k body) e (lookup-pop_all k unsupported body)
          ∙ ground (arith, e)
    ]

-- For a reasoning backend the rewritten body has none of the four refused parameters and no max_tokens,
-- whose value stands under max_completion_tokens unless that was set; it has the configured reasoning
-- effort unless one was set, and every other key as the given body.
pub apply_param_profile-sent :
    (effort : Text) (body : Dict Json) (k : String)
    → Dict.lookup k (apply_param_profile reasoning_profile effort body) ≡ sent effort body k
unfolding apply_param_profile sent
apply_param_profile-sent [] body k =
    lookup-renamed body k ∙ ground (arith, or_later-none (Dict.lookup k body))
apply_param_profile-sent (c ∷ s) body k = elim (Bool-cases (str_eq "reasoning_effort" k)) [
  | inl e ↦
      subst
        (λ j.
          Dict.lookup j (setdefault "reasoning_effort" (str (c ∷ s)) (after body))
          ≡ sent (c ∷ s) body j)
        ((eq_iff "reasoning_effort" k).0 e)
        (lookup-setdefault "reasoning_effort" "reasoning_effort" (str (c ∷ s)) (after body)
          ∙ ap (λ o. or_later o (some (str (c ∷ s)))) (lookup-renamed body "reasoning_effort"))
  | inr e ↦
      lookup-setdefault k "reasoning_effort" (str (c ∷ s)) (after body)
      ∙ ground (arith, e, lookup-renamed body k)
]
