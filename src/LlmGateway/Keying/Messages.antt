-- ===== src/LlmGateway/Keying/Messages.antt =====
-- The messages of a key: what `_normalize_messages` keeps.
use dev_harness.Base.{
  ◌≡◌, refl, ap, ◌⊎◌, true, false, Option, none, some, Bool-cases, inl, inr, if◌then◌else◌,
}
use mathlib.Core.Path.{ap₂}
use dev_harness.Base.Text.{Text}
use dev_harness.Base.Json.{
  Json, Jsons, Fields, null, bool, number, str, array, object, nil, cons, find,
}
use dev_harness.LlmGateway.Keying.{
  is_external, is_object, get, rewritten, kept, with_name, kept_message, kept_messages, put_first,
}

-- A message that no worker sent: no dictionary, or of a role that is none of the three.
pub data Internal : Json → Type 0 where
  no_object : {j : Json} → is_object j ≡ false → Internal j
  other_role : {ms : Fields} → is_external (get "role" ms) ≡ false → Internal (object ms)

-- Two messages of a worker that read the same; the other fields may differ.
pub record SameMessage (rewrite : Option (Text → Text)) (m m' : Fields) : Type 0 where
  pub external : is_external (get "role" m) ≡ true
  pub role : get "role" m ≡ get "role" m'
  pub content : rewritten rewrite (get "content" m) ≡ rewritten rewrite (get "content" m')
  pub name : find "name" m ≡ find "name" m'

-- Two conversations that are the same but for the messages that no worker sent.
pub data SameMessages (rewrite : Option (Text → Text)) : Jsons → Jsons → Type 0 where
  both_end : SameMessages rewrite nil nil
  skip_left :
      {j : Json} {js ks : Jsons}
      → Internal j
      → SameMessages rewrite js ks
      → SameMessages rewrite (cons j js) ks
  skip_right :
      {k : Json} {js ks : Jsons}
      → Internal k
      → SameMessages rewrite js ks
      → SameMessages rewrite js (cons k ks)
  same :
      {m m' : Fields} {js ks : Jsons}
      → SameMessage rewrite m m'
      → SameMessages rewrite js ks
      → SameMessages rewrite (cons (object m) js) (cons (object m') ks)

module _ (rewrite : Option (Text → Text)) where
  dropped : {j : Json} → Internal j → kept_message rewrite j ≡ none
  unfolding kept_message
  dropped {j = object ms} (no_object h) = cc
  dropped {j = null} (no_object h) = refl
  dropped {j = bool b} (no_object h) = refl
  dropped {j = number n} (no_object h) = refl
  dropped {j = str s} (no_object h) = refl
  dropped {j = array l} (no_object h) = refl
  dropped (other_role h) = rw h refl

  -- A message is dropped as one of the two kinds, or kept.
  Kept : Json → Type 0
  Kept j =
      Internal j
      ⊎ ((ms : Fields) × (j ≡ object ms)
          × (is_external (get "role" ms) ≡ true)
          × (kept_message rewrite j ≡ some (kept rewrite ms)))

  kinds : (j : Json) → Kept j
  unfolding kept_message Kept
  kinds (object ms) = elim (Bool-cases (is_external (get "role" ms))) [
    | inl e ↦ inr (ms, refl, e, rw e refl)
    | inr e ↦ inl (other_role e)
  ]
  kinds null = inl (no_object refl)
  kinds (bool b) = inl (no_object refl)
  kinds (number n) = inl (no_object refl)
  kinds (str s) = inl (no_object refl)
  kinds (array l) = inl (no_object refl)

  with_name-eq : (o o' : Option Json) → with_name o ≡ with_name o' → o ≡ o'
  with_name-eq none none h = refl
  with_name-eq none (some j) h = cc
  with_name-eq (some j) none h = cc
  with_name-eq (some j) (some k) h = cc

  kept-eq :
      (m m' : Fields)
      → is_external (get "role" m) ≡ true
      → kept rewrite m ≡ kept rewrite m'
      → SameMessage rewrite m m'
  kept-eq m m' e h = record {
    external = e;
    role = cc;
    content = cc;
    name = with_name-eq (find "name" m) (find "name" m') cc;
  }

  same-kept : (m m' : Fields) → SameMessage rewrite m m' → kept rewrite m ≡ kept rewrite m'
  same-kept m m' s = rw (s.role, s.content, s.name) refl

  same-kept_message :
      (m m' : Fields)
      → SameMessage rewrite m m'
      → kept_message rewrite (object m) ≡ kept_message rewrite (object m')
  unfolding kept_message
  same-kept_message m m' s =
      ap (λ (p : Json × Json). if is_external p.0 then some p.1 else none)
        (ap₂ (λ (a b : Json). (a, b)) s.role (same-kept m m' s))

  -- The same conversations are kept the same,
  pub same-kept_messages :
      {js ks : Jsons}
      → SameMessages rewrite js ks
      → kept_messages rewrite js ≡ kept_messages rewrite ks
  unfolding kept_messages
  same-kept_messages both_end = refl
  same-kept_messages (skip_left i s) = rw (dropped i) (same-kept_messages s)
  same-kept_messages (skip_right i s) = rw (dropped i) (same-kept_messages s)
  same-kept_messages (same {m = m} {m' = m'} e s) =
      ap₂ put_first (same-kept_message m m' e) (same-kept_messages s)

  -- and the other way round.
  pub kept_messages-same :
      (js ks : Jsons)
      → kept_messages rewrite js ≡ kept_messages rewrite ks
      → SameMessages rewrite js ks
  unfolding kept_messages Kept
  kept_messages-same nil nil h = both_end
  kept_messages-same nil (cons k ks) h = elim (kinds k) [
    | inl i ↦ skip_right i (kept_messages-same nil ks (rw (dropped i) at h))
    | inr (m, e, x, y) ↦
        let never : nil ≡ cons (kept rewrite m) (kept_messages rewrite ks) = rw y at h in cc
  ]
  kept_messages-same (cons j js) nil h = elim (kinds j) [
    | inl i ↦ skip_left i (kept_messages-same js nil (rw (dropped i) at h))
    | inr (m, e, x, y) ↦
        let never : cons (kept rewrite m) (kept_messages rewrite js) ≡ nil = rw y at h in cc
  ]
  kept_messages-same (cons j js) (cons k ks) h = elim (kinds j) [
    | inl i ↦ skip_left i (kept_messages-same js (cons k ks) (rw (dropped i) at h))
    | inr (m, e, x, y) ↦ elim (kinds k) [
      | inl i ↦ skip_right i (kept_messages-same (cons j js) ks (rw (dropped i) at h))
      | inr (m', e', x', y') ↦
          let eq : cons (kept rewrite m) (kept_messages rewrite js)
              ≡ cons (kept rewrite m') (kept_messages rewrite ks) =
            rw (y, y') at h in
          rw (e, e') (same (kept-eq m m' x cc) (kept_messages-same js ks cc))
    ]
  ]
