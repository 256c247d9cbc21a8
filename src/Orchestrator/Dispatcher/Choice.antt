-- ===== src/Orchestrator/Dispatcher/Choice.antt =====
-- Which daemon `_choose_daemon` of orchestrator/dispatcher.py takes.
use native.Mathlib.Nat.{mod-lt, mod-eq_of_lt, add-mod_left}
use dev_harness.Base.{
  ℕ, zero, suc, ◌+◌, ◌-◌, ◌%◌, ◌≤◌, ◌<◌, ◌≡◌, refl, ◌∙◌, ap, subst, inl, inr, Bool, true, false,
  Option, none, some, List, [], ◌∷◌, String, str_eq, arith, length, get_elem?, Bool-cases,
  Option-cases, leb, leb→le,
}
use dev_harness.Base.Dict
use dev_harness.Base.Dict.{keys, any-keys}
use dev_harness.Base.Sorting.{sorted, any-sorted, any-index}
use dev_harness.Orchestrator.Dispatcher.{Dispatcher, eligible, scan, clamp, choose_among, choose}

module _ (ok : String → Bool) (ids : List String) where
  -- The daemon at the place `i` can take the task.
  abbrev pub open_at : ℕ → Bool
  open_at i = elim (get_elem? ids i) [ none ↦ false | some id ↦ ok id ]

  -- `id`, at `idx`, is the first open place from `start` on, from the offset `from` on.
  pub record First (start from : ℕ) (id : String) (idx : ℕ) : Type 0 where
    pub steps : ℕ
    pub after : from ≤ steps
    pub few : steps < length ids
    pub place : (start + steps) % length ids ≡ idx
    pub named : get_elem? ids idx ≡ some id
    pub opens : ok id ≡ true
    pub passed : (j : ℕ) → from ≤ j → j < steps → open_at ((start + j) % length ids) ≡ false

  abbrev pub Scanned : ℕ → ℕ → Option (String × ℕ) → Type 0
  Scanned start from none =
      (j : ℕ) → from ≤ j → j < length ids → open_at ((start + j) % length ids) ≡ false
  Scanned start from (some (id, idx)) = First start from id idx

  shut_from :
      (start from : ℕ) (P : ℕ → Type 0)
      → open_at ((start + from) % length ids) ≡ false
      → ((j : ℕ) → suc from ≤ j → P j → open_at ((start + j) % length ids) ≡ false)
      → (j : ℕ) → from ≤ j
      → P j
      → open_at ((start + j) % length ids) ≡ false
  shut_from start from P shut later j le p = elim (Bool-cases (leb j from)) [
    | inl e ↦
        let same : from ≡ j = omega (arith, leb→le j from e) in
        subst (λ i. open_at ((start + i) % length ids) ≡ false) same shut
    | inr e ↦ later j (ground arith) p
  ]

  Scanned-suc :
      (start from : ℕ) (o : Option (String × ℕ))
      → open_at ((start + from) % length ids) ≡ false
      → Scanned start (suc from) o
      → Scanned start from o
  Scanned-suc start from none shut s = shut_from start from (λ j. j < length ids) shut s
  Scanned-suc start from (some (id, idx)) shut f = record {
    steps = f.steps;
    after = omega (arith, f.after);
    few = f.few;
    place = f.place;
    named = f.named;
    opens = f.opens;
    passed = shut_from start from (λ j. j < f.steps) shut f.passed;
  }

  pub scan-Scanned :
      (start from left : ℕ)
      → from + left ≡ length ids
      → Scanned start from (scan ok ids start from left)
  unfolding scan
  scan-Scanned start from zero h = λ j le lt. absurd (omega arith)
  scan-Scanned start from (suc left) h =
      let rest = scan-Scanned start (suc from) left (omega arith) in
      elim (Option-cases (get_elem? ids ((start + from) % length ids))) [
        | inl e ↦ rw (e, scan) (Scanned-suc start from _ (rw (e, open_at)) rest)
        | inr (id, e) ↦ elim (Bool-cases (ok id)) [
          | inl y ↦
              rw (e, y, scan)
                (record {
                  steps = from;
                  after = omega arith;
                  few = omega arith;
                  place = refl;
                  named = e;
                  opens = y;
                  passed = λ j le lt. absurd (omega arith);
                })
          | inr y ↦ rw (e, y, scan) (Scanned-suc start from _ (rw (e, y, open_at)) rest)
        ]
      ]

-- Every place is some number of steps away from the start.
pub steps_to : (n start i : ℕ) → start < n → i < n → (k : ℕ) × (k < n) × ((start + k) % n ≡ i)
steps_to n start i s h = elim (Bool-cases (leb start i)) [
  | inl e ↦
      let le = leb→le start i e in
      let sum : start + (i - start) ≡ i = omega (arith, le) in
      (i - start, omega (arith, le), ap (λ m. m % n) sum ∙ mod-eq_of_lt h)
  | inr e ↦
      let lt : i < start = ground arith in
      let sum : start + (n - start + i) ≡ n + i = omega (arith, lt) in
      (n - start + i, omega (arith, lt), ap (λ m. m % n) sum ∙ add-mod_left n i ∙ mod-eq_of_lt h)
]

clamp-lt : (n pointer : ℕ) → 0 < n → clamp n pointer < n
clamp-lt n pointer h = ground arith

-- What the choice among `ids` returns, where there are any.
abbrev pub Chosen : (String → Bool) → List String → ℕ → Option String × ℕ → Type 0
Chosen ok ids start (some id, pointer) =
    (idx : ℕ) × First ok ids start 0 id idx × (pointer ≡ suc idx % length ids)
Chosen ok ids start (none, pointer) =
    ((i : ℕ) → i < length ids → open_at ok ids i ≡ false) × (pointer ≡ suc start % length ids)

pub choose_among-Chosen :
    (ok : String → Bool) (ids : List String) (pointer : ℕ)
    → 0 < length ids
    → Chosen ok ids (clamp (length ids) pointer) (choose_among ok ids pointer)
unfolding choose_among
choose_among-Chosen ok [] pointer h = absurd (omega arith)
choose_among-Chosen ok (x ∷ xs) pointer h =
    let ids = x ∷ xs in
    let n = length ids in
    let start = clamp n pointer in
    let scanned = scan-Scanned ok ids start 0 n (omega arith) in
    elim (Option-cases (scan ok ids start 0 n)) [
      | inl e ↦
          rw (e, choose_among)
            (
              (λ i lt.
                  let (k, few, at) = steps_to n start i (clamp-lt n pointer h) lt in
                  let shut = subst (Scanned ok ids start 0) e scanned in
                  subst (λ m. open_at ok ids m ≡ false) at (shut k (omega arith) few)),
              refl,
            )
      | inr ((id, idx), e) ↦
          rw (e, choose_among) (idx, subst (Scanned ok ids start 0) e scanned, refl)
    ]

-- The daemons of the cache in the order of the turns.
abbrev pub in_order : Dispatcher → List String
in_order d = sorted (keys d.daemon_cache)

abbrev pub accepts : Dispatcher → String → Bool
accepts d id = eligible d.min_free_memory_mb d.daemon_cache id

-- If every place is shut, no daemon of the cache can take the task.
pub all_shut :
    (d : Dispatcher)
    → ((i : ℕ) → i < length (in_order d) → open_at (accepts d) (in_order d) i ≡ false)
    → (id : String) → accepts d id ≡ false
unfolding eligible
all_shut d shut id = elim (Option-cases (Dict.lookup id d.daemon_cache)) [
  | inl e ↦ rw (e, eligible)
  | inr (info, e) ↦
      let here = any-sorted (str_eq id) (keys d.daemon_cache) ∙ any-keys id info d.daemon_cache e in
      let (i, lt, at) = any-index id (in_order d) here in rw (at, open_at) at (shut i lt)
]

-- What a choice means: the first open place, and the pointer behind it; or no daemon can take the task.
abbrev pub TakesFirst : Dispatcher → Option String × ℕ → Type 0
TakesFirst d (some id, pointer) =
    (idx : ℕ) × First (accepts d) (in_order d) (clamp (length (in_order d)) d.judge_pointer) 0 id
      idx
    × (pointer ≡ suc idx % length (in_order d))
    × (pointer < length (in_order d))
TakesFirst d (none, pointer) =
    ((id : String) → accepts d id ≡ false) × (pointer < length (in_order d))

Chosen-TakesFirst :
    (d : Dispatcher) (o : Option String × ℕ)
    → 0 < length (in_order d)
    → Chosen (accepts d) (in_order d) (clamp (length (in_order d)) d.judge_pointer) o
    → TakesFirst d o
Chosen-TakesFirst d (none, pointer) h (shut, q) = (all_shut d shut, rw q (mod-lt _ h))
Chosen-TakesFirst d (some id, pointer) h (idx, first, q) = (idx, first, q, rw q (mod-lt _ h))

-- If the cache has a daemon, the dispatcher takes the first one, in sorted order from the pointer on
-- and around, that is alive and has room, and leaves the pointer at the place behind it; it takes none
-- only if no daemon of the cache is alive and has room. The pointer stays within the list.
pub choose-TakesFirst :
    (d : Dispatcher)
    → 0 < length (in_order d)
    → TakesFirst d ((choose d).0, (choose d).1.judge_pointer)
unfolding choose
choose-TakesFirst d h =
    Chosen-TakesFirst d _ h (choose_among-Chosen (accepts d) (in_order d) d.judge_pointer h)
