-- ===== src/Base/Dict.antt =====
-- Python's `dict` with string keys: an association list in insertion order. Assigning to a key that
-- is there keeps its place.
use mathlib.Core.Path.{◌≡◌, refl, ap, ap₂, subst, ◌∙◌}
use mathlib.Core.Logic.{inl, inr}
use mathlib.Core.Bool.{Bool, true, false}
use mathlib.Core.Option.{Option, none, some}
use mathlib.Core.List.{List, [], ◌∷◌, ◌++◌}
use Prim.Native.Nat.{suc, ◌≤◌}
use Prim.Native.String.{String}
use native.Mathlib.Omega.{arith}
use text.Mathlib.Text.{◌==◌ as str_eq}
use text.Mathlib.TextEquality.{eq_iff}
use dev_harness.Base.Tests.{if◌then◌else◌, Bool-cases}
use dev_harness.Base.Lists.{All, any, length}

abbrev pub Dict {ℓ} : Type ℓ → Type ℓ
Dict V = List (String × V)

module _ {ℓ} {V : Type ℓ} where
  -- `d.get(k)`
  unfoldable pub lookup : String → Dict V → Option V
  lookup k [] = none
  lookup k ((j, v) ∷ d) = if str_eq j k then some v else lookup k d

  -- `d[k] = v`
  unfoldable pub insert : String → V → Dict V → Dict V
  insert k v [] = (k, v) ∷ []
  insert k v ((j, w) ∷ d) =
      let rest = insert k v d in if str_eq j k then (k, v) ∷ d else (j, w) ∷ rest

  -- `del d[k]`
  unfoldable pub erase : String → Dict V → Dict V
  erase k [] = []
  erase k ((j, v) ∷ d) = let rest = erase k d in if str_eq j k then rest else (j, v) ∷ rest

  pub lookup-insert :
      (k j : String) (v : V) (d : Dict V)
      → lookup j (insert k v d) ≡ (if str_eq k j then some v else lookup j d)
  unfolding lookup insert
  lookup-insert k j v [] = refl
  lookup-insert k j v ((i, w) ∷ d) =
      ground (arith, eq_iff k j, eq_iff i k, eq_iff i j, lookup-insert k j v d)

  pub lookup-erase :
      (k j : String) (d : Dict V) → lookup j (erase k d) ≡ (if str_eq k j then none else lookup j d)
  unfolding lookup erase
  lookup-erase k j [] = ground arith
  lookup-erase k j ((i, w) ∷ d) =
      ground (arith, eq_iff k j, eq_iff i k, eq_iff i j, lookup-erase k j d)

  -- An invariant of the entries survives an assignment that meets it, and a deletion.
  pub All-insert {κ} :
      (P : String × V → Type κ) (k : String) (v : V) (d : Dict V)
      → P (k, v)
      → All P d
      → All P (insert k v d)
  unfolding insert
  All-insert P k v [] h hs = (h, tt)
  All-insert P k v ((j, w) ∷ d) h hs = elim (Bool-cases (str_eq j k)) [
    | inl e ↦ rw e (h, hs.1)
    | inr e ↦ rw e (hs.0, All-insert P k v d h hs.1)
  ]

  pub All-erase {κ} :
      (P : String × V → Type κ) (k : String) (d : Dict V) → All P d → All P (erase k d)
  unfolding erase
  All-erase P k [] hs = tt
  All-erase P k ((j, w) ∷ d) hs = elim (Bool-cases (str_eq j k)) [
    | inl e ↦ rw e (All-erase P k d hs.1)
    | inr e ↦ rw e (hs.0, All-erase P k d hs.1)
  ]

  -- What a lookup returns meets the invariant, under the key that was looked up.
  pub All-lookup {κ} :
      (P : String × V → Type κ) (k : String) (v : V) (d : Dict V)
      → All P d
      → lookup k d ≡ some v
      → P (k, v)
  unfolding lookup
  All-lookup P k v [] hs e = cc
  All-lookup P k v ((j, w) ∷ d) hs e = elim (Bool-cases (str_eq j k)) [
    | inl q ↦
        let same_value : w ≡ v = ground arith in
        subst P (ap₂ (λ (a : String) (b : V). (a, b)) ((eq_iff j k).0 q) same_value) hs.0
    | inr q ↦ All-lookup P k v d hs.1 (rw q at e)
  ]

  -- No key stands twice.
  abbrev pub Unique : Dict V → Type ℓ
  Unique [] = Unit
  Unique ((k, v) ∷ d) = (lookup k d ≡ none) × Unique d

  pub Unique-insert : (k : String) (v : V) (d : Dict V) → Unique d → Unique (insert k v d)
  unfolding insert
  Unique-insert k v [] u = (unfold lookup in refl, tt)
  Unique-insert k v ((j, w) ∷ d) u = elim (Bool-cases (str_eq j k)) [
    | inl e ↦ rw e (subst (λ i. lookup i d ≡ none) ((eq_iff j k).0 e) u.0, u.1)
    | inr e ↦ rw e (
      ground (arith, lookup-insert k j v d, eq_iff k j, eq_iff j k, u.0),
      Unique-insert k v d u.1,
    )
  ]

  -- `{k: v for k, v in d.items() if p(v)}`
  unfoldable pub keep : (V → Bool) → Dict V → Dict V
  keep p [] = []
  keep p ((k, v) ∷ d) = let rest = keep p d in if p v then (k, v) ∷ rest else rest

  abbrev pub only : (V → Bool) → Option V → Option V
  only p none = none
  only p (some v) = if p v then some v else none

  only-none : (p : V → Bool) (o : Option V) → o ≡ none → only p o ≡ none
  only-none p none e = refl
  only-none p (some v) e = cc

  pub lookup-keep :
      (p : V → Bool) (k : String) (d : Dict V)
      → Unique d
      → lookup k (keep p d) ≡ only p (lookup k d)
  unfolding lookup keep
  lookup-keep p k [] u = refl
  lookup-keep p k ((j, v) ∷ d) u = elim (Bool-cases (str_eq j k)) [
    | inl e ↦
        let gone : lookup k d ≡ none = subst (λ i. lookup i d ≡ none) ((eq_iff j k).0 e) u.0 in
        let rest : lookup k (keep p d) ≡ none =
          lookup-keep p k d u.1 ∙ only-none p (lookup k d) gone in
        ground (arith, rest)
    | inr e ↦ ground (arith, lookup-keep p k d u.1)
  ]

  pub Unique-keep : (p : V → Bool) (d : Dict V) → Unique d → Unique (keep p d)
  unfolding keep
  Unique-keep p [] u = tt
  Unique-keep p ((k, v) ∷ d) u = elim (Bool-cases (p v)) [
    | inl e ↦ rw e (lookup-keep p k d u.1 ∙ only-none p (lookup k d) u.0, Unique-keep p d u.1)
    | inr e ↦ rw e (Unique-keep p d u.1)
  ]

  pub All-keep {κ} :
      (P : String × V → Type κ) (p : V → Bool) (d : Dict V) → All P d → All P (keep p d)
  unfolding keep
  All-keep P p [] hs = tt
  All-keep P p ((k, v) ∷ d) hs = elim (Bool-cases (p v)) [
    | inl e ↦ rw e (hs.0, All-keep P p d hs.1)
    | inr e ↦ rw e (All-keep P p d hs.1)
  ]

  pub lookup-nil : (k : String) → lookup k [] ≡ none
  unfolding lookup
  lookup-nil k = refl

  pub lookup-cons :
      (k j : String) (v : V) (d : Dict V)
      → lookup k ((j, v) ∷ d) ≡ (if str_eq j k then some v else lookup k d)
  unfolding lookup
  lookup-cons k j v d = refl

  -- A key that is there differs from one that is not.
  pub ne_of_lookup :
      (k j : String) (v : V) (d : Dict V)
      → lookup k d ≡ none
      → lookup j d ≡ some v
      → str_eq k j ≡ false
  ne_of_lookup k j v d absent here = elim (Bool-cases (str_eq k j)) [
    | inr q ↦ q
    | inl q ↦
        let gone : lookup j d ≡ none = subst (λ i. lookup i d ≡ none) ((eq_iff k j).0 q) absent in
        cc
  ]

  -- `list(d)`
  abbrev pub keys : Dict V → List String
  keys [] = []
  keys ((k, v) ∷ d) = k ∷ keys d

  pub any-keys :
      (k : String) (v : V) (d : Dict V) → lookup k d ≡ some v → any (str_eq k) (keys d) ≡ true
  unfolding lookup
  any-keys k v [] h = cc
  any-keys k v ((j, w) ∷ d) h = ground (arith, eq_iff j k, eq_iff k j, any-keys k v d)

  pub lookup_of_key :
      (k : String) (d : Dict V) → any (str_eq k) (keys d) ≡ true → (v : V) × (lookup k d ≡ some v)
  unfolding lookup
  lookup_of_key k [] h = cc
  lookup_of_key k ((j, w) ∷ d) h = elim (Bool-cases (str_eq j k)) [
    | inl e ↦ (w, rw e)
    | inr e ↦
        let ne : str_eq k j ≡ false = ground (arith, eq_iff j k, eq_iff k j) in
        rw (e, lookup) (lookup_of_key k d (rw ne at h))
  ]

  pub length-insert : (k : String) (v : V) (d : Dict V) → length (insert k v d) ≤ suc (length d)
  unfolding insert
  length-insert k v [] = omega arith
  length-insert k v ((j, w) ∷ d) = ground (arith, length-insert k v d)

  pub length-erase : (k : String) (d : Dict V) → length (erase k d) ≤ length d
  unfolding erase
  length-erase k [] = omega arith
  length-erase k ((j, w) ∷ d) = ground (arith, length-erase k d)

  -- A new key comes last, and to delete an absent one changes nothing.
  pub insert_new :
      (k : String) (v : V) (d : Dict V) → lookup k d ≡ none → insert k v d ≡ d ++ ((k, v) ∷ [])
  unfolding insert lookup
  insert_new k v [] h = refl
  insert_new k v ((j, w) ∷ d) h = ground (arith, insert_new k v d)

  pub erase_missing : (k : String) (d : Dict V) → lookup k d ≡ none → erase k d ≡ d
  unfolding erase lookup
  erase_missing k [] h = refl
  erase_missing k ((j, w) ∷ d) h = ground (arith, erase_missing k d)

  ne_of_lookup-append :
      (k j : String) (v : V) (before after : Dict V)
      → lookup j (before ++ ((k, v) ∷ after)) ≡ none
      → str_eq j k ≡ false
  unfolding lookup
  ne_of_lookup-append k j v [] after h = ground (arith, eq_iff k j, eq_iff j k)
  ne_of_lookup-append k j v ((i, w) ∷ before) after h =
      ground (arith, ne_of_lookup-append k j v before after)

  -- A key that stands once is deleted from its place.
  pub erase-append :
      (k : String) (v : V) (before after : Dict V)
      → Unique (before ++ ((k, v) ∷ after))
      → erase k (before ++ ((k, v) ∷ after)) ≡ before ++ after
  unfolding erase
  erase-append k v [] after u =
      let here : str_eq k k ≡ true = (eq_iff k k).1 refl in rw here (erase_missing k after u.0)
  erase-append k v ((j, w) ∷ before) after u =
      let ne : str_eq j k ≡ false = ne_of_lookup-append k j v before after u.0 in
      rw ne (ap (λ rest. (j, w) ∷ rest) (erase-append k v before after u.1))

  pub Unique-erase : (k : String) (d : Dict V) → Unique d → Unique (erase k d)
  unfolding erase
  Unique-erase k [] u = tt
  Unique-erase k ((j, w) ∷ d) u = elim (Bool-cases (str_eq j k)) [
    | inl e ↦ rw e (Unique-erase k d u.1)
    | inr e ↦ rw e (ground (arith, lookup-erase k j d, u.0), Unique-erase k d u.1)
  ]
