-- ===== src/Orchestrator/Consumer.antt =====
-- orchestrator/consumer.py: `StreamConsumer`. Redis and the handler are outside: what they answer about
-- an entry is a `Handling`, and what happens is a list of effects in order.
pub mod Acks
use dev_harness.Base.{
  ℕ, zero, suc, Bool, Option, none, some, List, [], ◌∷◌, ◌++◌, String, if◌then◌else◌,
}

pub record Entry : Type 0 where
  pub id : String
  pub body : String

-- The error that the handler raised, the error of the acknowledgement after it, whether the write to
-- the dead-letter stream went through, and the acknowledgement after that.
pub record Handling : Type 0 where
  pub handler_error : Option String
  pub ack_error : Option String
  pub dead_lettered : Bool
  pub dead_acked : Bool

pub data Effect : Type 0 where
  handled : Entry → Effect
  xack : String → Effect
  dead_letter : Entry → String → Effect

-- The handler of an exception: the dead-letter stream, and then the acknowledgement.
dead_letter_entry : Entry → Handling → String → List Effect
dead_letter_entry e h error =
    if h.dead_lettered
    then (dead_letter e error ∷ (if h.dead_acked then xack e.id ∷ [] else []))
    else []

-- `_process_entry`; an acknowledgement that fails after the handler returned goes to the dead letters
-- too.
unfoldable pub process_entry : Entry → Handling → List Effect
unfolding dead_letter_entry
process_entry e h = elim h.handler_error [
  | some error ↦ dead_letter_entry e h error
  | none ↦ elim h.ack_error [
    | none ↦ handled e ∷ xack e.id ∷ []
    | some error ↦ handled e ∷ dead_letter_entry e h error
  ]
]

-- A batch of entries.
abbrev pub Batch : Type 0
Batch = List (Entry × Handling)

unfoldable pub process_entries : Batch → List Effect
process_entries [] = []
process_entries ((e, h) ∷ rest) = process_entry e h ++ process_entries rest

abbrev pub max_passes : ℕ
max_passes = 100

-- The passes of `_drain_pending` with `left` to go: it stops at a read that raises or is empty.
unfoldable pub drain_passes : ℕ → (ℕ → Option Batch) → ℕ → List Effect
drain_passes zero reads i = []
drain_passes (suc left) reads i =
    let rest = drain_passes left reads (suc i) in
    elim (reads i) [ none ↦ [] | some [] ↦ [] | some (x ∷ xs) ↦ process_entries (x ∷ xs) ++ rest ]

-- `_drain_pending`
unfoldable pub drain_pending : (ℕ → Option Batch) → List Effect
unfolding drain_passes
drain_pending reads = drain_passes max_passes reads 0

-- The rounds of `_consume_loop`; a read that raises is tried again, and a timeout gives no entry.
unfoldable pub consume_rounds : List (Option Batch) → List Effect
consume_rounds [] = []
consume_rounds (none ∷ rounds) = consume_rounds rounds
consume_rounds (some batch ∷ rounds) = process_entries batch ++ consume_rounds rounds

-- `_run` once its group is there: the drain, then the main loop.
unfoldable pub run : (ℕ → Option Batch) → List (Option Batch) → List Effect
unfolding drain_pending
run reads rounds = drain_pending reads ++ consume_rounds rounds
