-- ===== src/Orchestrator/Dispatcher/Turns.antt =====
-- Fairness of the turns of orchestrator/dispatcher.py.
use native.Mathlib.Nat.{mod-lt, mod-add-mod}
use dev_harness.Base.{
  ℕ, zero, suc, ◌+◌, ◌-◌, ◌%◌, ◌<◌, ◌≡◌, sym, ◌∙◌, ap, subst, inl, inr, Bool, true, false, Option,
  none, some, List, [], ◌∷◌, String, arith, length, get_elem?, ltb, ltb→lt, Bool-cases, All,
}
use dev_harness.Orchestrator.Dispatcher.{clamp, choose_among}
use dev_harness.Orchestrator.Dispatcher.Choice.{open_at, Chosen, choose_among-Chosen, steps_to}

-- The daemons chosen one after the other: a list of daemons, and at each dispatch the daemons that are
-- then alive and have room.
unfoldable pub turns : List String → ℕ → List (String → Bool) → List (Option String)
turns ids pointer [] = []
turns ids pointer (ok ∷ oks) =
    let (chosen, pointer') = choose_among ok ids pointer in chosen ∷ turns ids pointer' oks

-- `x` is one of `xs`.
pub data Among {A : Type 0} (x : A) : List A → Type 0 where
  first : (y : A) (ys : List A) → x ≡ y → Among x (y ∷ ys)
  later : (y : A) (ys : List A) → Among x ys → Among x (y ∷ ys)

-- The place `i`, `d` steps from the start, comes `k + 1` steps nearer when the turn goes to the place
-- at `k` steps.
nearer :
    (n start k d i : ℕ)
    → k < d
    → (start + d) % n ≡ i
    → (suc ((start + k) % n) % n + (d - k - 1)) % n ≡ i
nearer n start k d i h at =
    let e1 : (suc ((start + k) % n) % n + (d - k - 1)) % n
        ≡ (suc ((start + k) % n) + (d - k - 1)) % n =
      mod-add-mod (suc ((start + k) % n)) n (d - k - 1) in
    let sum1 : suc ((start + k) % n) + (d - k - 1) ≡ (start + k) % n + (d - k) = omega (arith, h) in
    let e2 : ((start + k) % n + (d - k)) % n ≡ (start + k + (d - k)) % n =
      mod-add-mod (start + k) n (d - k) in
    let sum2 : start + k + (d - k) ≡ start + d = omega (arith, h) in
    e1 ∙ ap (λ m. m % n) sum1 ∙ e2 ∙ ap (λ m. m % n) sum2 ∙ at

clamp-id : (n pointer : ℕ) → pointer < n → clamp n pointer ≡ pointer
clamp-id n pointer h = ground arith

Chosen-lt :
    (ok : String → Bool) (ids : List String) (start : ℕ) (o : Option String × ℕ)
    → 0 < length ids
    → Chosen ok ids start o
    → o.1 < length ids
Chosen-lt ok ids start (none, pointer) h (shut, q) = rw q (mod-lt _ h)
Chosen-lt ok ids start (some id, pointer) h (idx, f, q) = rw q (mod-lt _ h)

get_elem-lt : (ids : List String) (i : ℕ) (id : String) → get_elem? ids i ≡ some id → i < length ids
get_elem-lt [] i id h = cc
get_elem-lt (x ∷ xs) zero id h = omega arith
get_elem-lt (x ∷ xs) (suc i) id h = omega (arith, get_elem-lt xs i id h)

module _ (ids : List String) (id : String) (i : ℕ) (here : get_elem? ids i ≡ some id) where
  turn :
      (ok : String → Bool) (oks : List (String → Bool)) (pointer d : ℕ) (o : Option String × ℕ)
      → ok id ≡ true
      → pointer < length ids
      → (pointer + d) % length ids ≡ i
      → i < length ids
      → Chosen ok ids pointer o
      → ((d' : ℕ) → d' < d → (o.1 + d') % length ids ≡ i → Among (some id) (turns ids o.1 oks))
      → Among (some id) (o.0 ∷ turns ids o.1 oks)
  turn ok oks pointer d (none, pointer') opens lt at in_range (shut, q) rest =
      absurd (let bad : ok id ≡ false = rw (here, open_at) at (shut i in_range) in cc)
  turn ok oks pointer d (some id', pointer') opens lt at in_range (idx, f, q) rest =
      elim (Bool-cases (ltb f.steps d)) [
        | inl e ↦
            let less = ltb→lt f.steps d e in
            later _ _ (
              rest (d - f.steps - 1) (omega (arith, less))
                (rw (q, sym f.place) (nearer (length ids) pointer f.steps d i less at)))
        | inr e ↦ elim (Bool-cases (ltb d f.steps)) [
          | inl e' ↦
              let shut =
                subst (λ m. open_at ok ids m ≡ false) at
                  (f.passed d (omega arith) (ltb→lt d f.steps e')) in
              absurd (let bad : ok id ≡ false = rw (here, open_at) at shut in cc)
          | inr e' ↦
              let same : f.steps ≡ d = ground arith in
              let at_i : idx ≡ i = sym f.place ∙ ap (λ m. (pointer + m) % length ids) same ∙ at in
              first _ _ (sym here ∙ ap (get_elem? ids) (sym at_i) ∙ f.named)
        ]
      ]

  turns_reach :
      (oks : List (String → Bool)) (pointer d : ℕ)
      → All (λ ok. ok id ≡ true) oks
      → pointer < length ids
      → (pointer + d) % length ids ≡ i
      → d < length oks
      → Among (some id) (turns ids pointer oks)
  unfolding turns
  turns_reach [] pointer d opens lt at h = absurd (omega arith)
  turns_reach (ok ∷ oks) pointer d opens lt at h =
      let some_daemon : 0 < length ids = omega (arith, lt) in
      let in_range : i < length ids = subst (λ m. m < length ids) at (mod-lt _ some_daemon) in
      let o = choose_among ok ids pointer in
      let chosen =
        subst (λ start. Chosen ok ids start o) (clamp-id (length ids) pointer lt)
          (choose_among-Chosen ok ids pointer some_daemon) in
      turn ok oks pointer d o opens.0 lt at in_range chosen (λ d' less at'.
        turns_reach oks o.1 d' opens.1 (Chosen-lt ok ids pointer o some_daemon chosen) at'
          (omega (arith, less)))

-- A daemon that is alive and has room at each of n dispatches, where n is the number of daemons, is
-- given a task by one of them, whatever the others report and wherever the pointer stands.
pub every_daemon_gets_its_turn :
    (ids : List String) (id : String) (i pointer : ℕ) (oks : List (String → Bool))
    → get_elem? ids i ≡ some id
    → pointer < length ids
    → All (λ ok. ok id ≡ true) oks
    → length oks ≡ length ids
    → Among (some id) (turns ids pointer oks)
every_daemon_gets_its_turn ids id i pointer oks here lt opens enough =
    let (d, few, at) = steps_to (length ids) pointer i lt (get_elem-lt ids i id here) in
    turns_reach ids id i here oks pointer d opens lt at (omega (arith, few))
