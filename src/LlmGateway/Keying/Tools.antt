-- ===== src/LlmGateway/Keying/Tools.antt =====
-- The tools of a key: `_normalize_tools` forgets their order.
use dev_harness.Base.{
  ℕ, ◌≡◌, refl, sym, ap, ◌∙◌, ◌≢◌, inl, inr, true, false, some, [], ◌∷◌, ◌==◌, arith, Bool-cases,
  if◌then◌else◌,
}
use mathlib.Core.Path.{ap₂}
use dev_harness.Base.Text.{Text}
use dev_harness.Base.Json.{Json, Jsons, array, nil, cons}
use dev_harness.LlmGateway.Keying.{
  text_lt, tool_key, insert_tool, is_object, sorted_tools, normalize_tools,
}

text_lt_trans : (s t u : Text) → text_lt s t ≡ true → text_lt t u ≡ true → text_lt s u ≡ true
unfolding text_lt
text_lt_trans s [] u h k = cc
text_lt_trans s (b ∷ t) [] h k = cc
text_lt_trans [] (b ∷ t) (c ∷ u) h k = refl
text_lt_trans (a ∷ s) (b ∷ t) (c ∷ u) h k = ground (arith, text_lt_trans s t u)

text_lt_asym : (s t : Text) → text_lt s t ≡ true → text_lt t s ≡ false
unfolding text_lt
text_lt_asym s [] h = cc
text_lt_asym [] (b ∷ t) h = refl
text_lt_asym (a ∷ s) (b ∷ t) h = ground (arith, text_lt_asym s t)

text_lt_total : (s t : Text) → s ≢ t → text_lt s t ≡ false → text_lt t s ≡ true
unfolding text_lt
text_lt_total [] [] ne h = absurd (ne refl)
text_lt_total [] (b ∷ t) ne h = cc
text_lt_total (a ∷ s) [] ne h = refl
text_lt_total (a ∷ s) (b ∷ t) ne h = elim (Bool-cases (a == b)) [
  | inl e ↦
      let heads : a ≡ b = ground arith in
      let tails : s ≢ t = λ (q : s ≡ t). ne (ap₂ (λ (c : ℕ) (r : Text). c ∷ r) heads q) in
      ground (arith, text_lt_total s t tails)
  | inr e ↦ ground arith
]

module _ (show : Json → Text) where
  goes_past :
      (t u : Json) (us : Jsons)
      → text_lt (tool_key show u) (tool_key show t) ≡ true
      → insert_tool show t (cons u us) ≡ cons u (insert_tool show t us)
  unfolding insert_tool
  goes_past t u us h = rw h refl

  stops_before :
      (t u : Json) (us : Jsons)
      → text_lt (tool_key show u) (tool_key show t) ≡ false
      → insert_tool show t (cons u us) ≡ cons t (cons u us)
  unfolding insert_tool
  stops_before t u us h = rw h refl

  insert_tool_comm :
      (t u : Json) (us : Jsons)
      → text_lt (tool_key show t) (tool_key show u) ≡ true
      → insert_tool show t (insert_tool show u us) ≡ insert_tool show u (insert_tool show t us)
  unfolding insert_tool
  insert_tool_comm t u nil h =
      let back = text_lt_asym (tool_key show t) (tool_key show u) h in
      stops_before t u nil back ∙ sym (goes_past u t nil h)
  insert_tool_comm t u (cons x us) h =
      let k : Json → Text = tool_key show in
      let back : text_lt (k u) (k t) ≡ false = text_lt_asym (k t) (k u) h in
      elim (Bool-cases (text_lt (k x) (k t))) [
        | inl xt ↦
            let xu : text_lt (k x) (k u) ≡ true = text_lt_trans (k x) (k t) (k u) xt h in
            let a = goes_past t x us xt in
            let b = goes_past u x us xu in
            let c = goes_past t x (insert_tool show u us) xt in
            let d = goes_past u x (insert_tool show t us) xu in
            let rest = insert_tool_comm t u us h in cc
        | inr xt ↦
            let a = stops_before t x us xt in
            let past = goes_past u t (cons x us) h in
            elim (Bool-cases (text_lt (k x) (k u))) [
              | inl xu ↦
                  let b = goes_past u x us xu in
                  let c = stops_before t x (insert_tool show u us) xt in cc
              | inr xu ↦
                  let b = stops_before u x us xu in let c = stops_before t u (cons x us) back in cc
            ]
      ]

  -- The declarations of a list in another order, where two that change places have different names.
  pub data Reordered : Jsons → Jsons → Type 0 where
    unchanged : (ts : Jsons) → Reordered ts ts
    first : {ts us : Jsons} (t : Json) → Reordered ts us → Reordered (cons t ts) (cons t us)
    swap :
        (t u : Json) (ts : Jsons)
        → tool_key show t ≢ tool_key show u
        → Reordered (cons t (cons u ts)) (cons u (cons t ts))
    after : {ts us vs : Jsons} → Reordered ts us → Reordered us vs → Reordered ts vs

  insert_tool_swap :
      (t u : Json) (us : Jsons)
      → tool_key show t ≢ tool_key show u
      → insert_tool show t (insert_tool show u us) ≡ insert_tool show u (insert_tool show t us)
  insert_tool_swap t u us ne = elim (Bool-cases (text_lt (tool_key show t) (tool_key show u))) [
    | inl h ↦ insert_tool_comm t u us h
    | inr h ↦ sym (insert_tool_comm u t us (text_lt_total _ _ ne h))
  ]

  sorted_tools-Reordered :
      {ts us : Jsons} → Reordered ts us → sorted_tools show ts ≡ sorted_tools show us
  unfolding sorted_tools
  sorted_tools-Reordered (unchanged ts) = refl
  sorted_tools-Reordered (first t r) =
      ap (λ rest. if is_object t then insert_tool show t rest else rest) (sorted_tools-Reordered r)
  sorted_tools-Reordered (swap t u ts ne) =
      ground (arith, insert_tool_swap t u (sorted_tools show ts) ne)
  sorted_tools-Reordered (after r r') = sorted_tools-Reordered r ∙ sorted_tools-Reordered r'

  -- A config that lists its tools in another order asks for the same tools.
  pub normalize_tools-Reordered :
      {ts us : Jsons}
      → Reordered ts us
      → normalize_tools show (some (array ts)) ≡ normalize_tools show (some (array us))
  unfolding normalize_tools
  normalize_tools-Reordered r = ap array (sorted_tools-Reordered r)
