-- ===== src/Worker/ApplyPatch/Anchors.antt =====
-- Where bf_worker/services/apply_patch.py anchors a change.
use dev_harness.Base.{
  ℕ, suc, ◌+◌, ◌≡◌, refl, sym, ap, ◌∙◌, inl, inr, Bool, true, false, Option, none, some, List, [],
  ◌∷◌, ◌==◌, any, get_elem?, arith, Bool-cases, Option-cases, subst,
}
use dev_harness.Base.Text.{Text, strip, text_eq, text_eq→eq}
use dev_harness.Worker.ApplyPatch.{
  Change, hint_of, positions, loose_index, hinted, exact_at, by_content, anchor, resolve_index,
}

positions-get :
    (p : Text → Bool) (k : ℕ) (ls : List Text) (h : ℕ)
    → any (λ i. i == h) (positions p k ls) ≡ true
    → (d : ℕ) × (k + d ≡ h) × (l : Text) × (get_elem? ls d ≡ some l) × (p l ≡ true)
unfolding positions
positions-get p k [] h e = cc
positions-get p k (l ∷ ls) h e = elim (Bool-cases (p l)) [
  | inr n ↦
      let (d, at, l', here, holds) = positions-get p (suc k) ls h (rw (n, positions) at e) in
      (suc d, omega (arith, at), l', here, holds)
  | inl y ↦ elim (Bool-cases (k == h)) [
    | inl same ↦ (0, ground arith, l, refl, y)
    | inr other ↦
        let e' : any (λ i. i == h) (positions p (suc k) ls) ≡ true = ground (arith, y, other) in
        let (d, at, l', here, holds) = positions-get p (suc k) ls h e' in
        (suc d, omega (arith, at), l', here, holds)
  ]
]

-- The line at `i` is the original up to the space around it.
abbrev pub Fits : List Text → Text → ℕ → Type 0
Fits lines original i = (l : Text) × (get_elem? lines i ≡ some l) × (strip l ≡ strip original)

exact-Fits :
    (lines : List Text) (original : Text) (i : ℕ)
    → any (λ j. j == i) (positions (λ l. text_eq l original) 0 lines) ≡ true
    → Fits lines original i
exact-Fits lines original i h =
    let (d, at, l, here, holds) = positions-get (λ l. text_eq l original) 0 lines i h in
    let same : d ≡ i = omega (arith, at) in
    (l, subst (λ m. get_elem? lines m ≡ some l) same here, ap strip (text_eq→eq l original holds))

loose-Fits :
    (lines : List Text) (original key : Text) (i : ℕ)
    → strip original ≡ key
    → loose_index lines key ≡ some i
    → Fits lines original i
unfolding loose_index
loose-Fits lines original [] i k h = cc
loose-Fits lines original (c ∷ key) i k h =
    single (positions (λ l. text_eq (strip l) (c ∷ key)) 0 lines) refl
  where
    single :
        (found : List ℕ)
        → positions (λ l. text_eq (strip l) (c ∷ key)) 0 lines ≡ found
        → Fits lines original i
    single [] e = absurd (let bad : none ≡ some i = rw (e, loose_index) at h in cc)
    single (j ∷ a ∷ more) e = absurd (let bad : none ≡ some i = rw (e, loose_index) at h in cc)
    single (j ∷ []) e =
        let hit : some j ≡ some i = rw (e, loose_index) at h in
        let listed : any (λ m. m == i) (positions (λ l. text_eq (strip l) (c ∷ key)) 0 lines)
            ≡ true =
          rw e (ground arith) in
        let (d, at, l, here, holds) =
          positions-get (λ l. text_eq (strip l) (c ∷ key)) 0 lines i listed in
        let same : d ≡ i = omega (arith, at) in
        (
          l,
          subst (λ m. get_elem? lines m ≡ some l) same here,
          text_eq→eq (strip l) (c ∷ key) holds ∙ sym k,
        )

hinted-any :
    (xs : List ℕ) (o : Option ℕ) (i : ℕ) → hinted xs o ≡ some i → any (λ m. m == i) xs ≡ true
hinted-any xs none i q = cc
hinted-any xs (some m) i q = elim (Bool-cases (any (λ x. x == m) xs)) [
  | inl y ↦
      let at : some m ≡ some i = rw (y, hinted) at q in
      let same : m ≡ i = cc in subst (λ x. any (λ z. z == x) xs ≡ true) same y
  | inr y ↦ absurd (let bad : none ≡ some i = rw (y, hinted) at q in cc)
]

by_content-Fits :
    (lines : List Text) (original : Text) (hint : Option ℕ) (i : ℕ)
    → by_content lines original hint ≡ some i
    → Fits lines original i
unfolding by_content
by_content-Fits lines original hint i h = among (positions (λ l. text_eq l original) 0 lines) refl
  where
    among :
        (found : List ℕ)
        → positions (λ l. text_eq l original) 0 lines ≡ found
        → Fits lines original i
    among [] e = loose-Fits lines original (strip original) i refl (rw (e, by_content) at h)
    among (j ∷ []) e =
        let hit : some j ≡ some i = rw (e, by_content) at h in
        exact-Fits lines original i (rw e (ground arith))
    among (j ∷ a ∷ more) e =
        exact-Fits lines original i (hinted-any _ hint i (rw (e, by_content) at h))

exact_at-Fits :
    (lines : List Text) (original : Text) (hint : Option ℕ) (i : ℕ)
    → exact_at lines original hint ≡ true
    → hint ≡ some i
    → Fits lines original i
exact_at-Fits lines original none i e h = cc
exact_at-Fits lines original (some m) i e h = elim (Option-cases (get_elem? lines m)) [
  | inl q ↦ absurd (let bad : false ≡ true = rw (q, exact_at) at e in cc)
  | inr (l, q) ↦
      let equal : text_eq l original ≡ true = rw (q, exact_at) at e in
      let same : m ≡ i = cc in
      (l, subst (λ x. get_elem? lines x ≡ some l) same q, ap strip (text_eq→eq l original equal))
]

anchor-Fits :
    (lines : List Text) (original : Text) (hint : Option ℕ) (i : ℕ)
    → anchor lines original hint ≡ some i
    → Fits lines original i
unfolding anchor
anchor-Fits lines [] hint i h = cc
anchor-Fits lines (c ∷ cs) hint i h = elim (Bool-cases (exact_at lines (c ∷ cs) hint)) [
  | inl e ↦ exact_at-Fits lines (c ∷ cs) hint i e (rw (e, anchor) at h)
  | inr e ↦ by_content-Fits lines (c ∷ cs) hint i (rw (e, anchor) at h)
]

-- A change is anchored only to a line that is in the file, and that is its original line up to the
-- space around it, whatever line number it gives.
pub resolve_index-Fits :
    (lines : List Text) (c : Change) (original : Text) (i : ℕ)
    → c.original_line ≡ some original
    → resolve_index lines c ≡ some i
    → Fits lines original i
unfolding resolve_index
resolve_index-Fits lines c original i o h =
    anchor-Fits lines original (hint_of c.line_number) i (rw (o, resolve_index) at h)
