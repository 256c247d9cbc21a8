-- ===== src/Orchestrator/Consumer/Acks.antt =====
-- When orchestrator/consumer.py acknowledges an entry.
use dev_harness.Base.{
  ℕ, zero, suc, ◌⊎◌, subst, ◌≡◌, refl, sym, ap, inl, inr, Bool, true, false, ◌&&◌, Option, none,
  some, List, [], ◌∷◌, ◌++◌, map, String, str_eq, eq_iff, arith, All, any,
}
use dev_harness.Orchestrator.Consumer.{
  Entry, Handling, Effect, handled, xack, dead_letter, Batch, process_entry, process_entries,
  drain_passes, drain_pending, consume_rounds, run, max_passes,
}

-- Every acknowledged id is among `safe`, or was handled or dead-lettered before.
abbrev pub accounted : List String → List Effect → Bool
accounted safe [] = true
accounted safe (handled e ∷ rest) = accounted (e.id ∷ safe) rest
accounted safe (dead_letter e error ∷ rest) = accounted (e.id ∷ safe) rest
accounted safe (xack id ∷ rest) = any (str_eq id) safe && accounted safe rest

abbrev Accounted : List Effect → Type 0
Accounted rest = (safe : List String) → accounted safe rest ≡ true

append_assoc : {A : Type 0} (xs ys zs : List A) → (xs ++ ys) ++ zs ≡ xs ++ (ys ++ zs)
append_assoc [] ys zs = refl
append_assoc (x ∷ xs) ys zs = ap (λ l. x ∷ l) (append_assoc xs ys zs)

read-cases :
    {A : Type 0} (o : Option (List A))
    → (o ≡ none) ⊎ (o ≡ some []) ⊎ ((x : A) × (xs : List A) × (o ≡ some (x ∷ xs)))
read-cases none = inl refl
read-cases (some []) = inr (inl refl)
read-cases (some (x ∷ xs)) = inr (inr (x, xs, refl))

process_entry-Accounted :
    (e : Entry) (h : Handling) (rest : List Effect)
    → Accounted rest
    → Accounted (process_entry e h ++ rest)
unfolding process_entry
process_entry-Accounted e h rest k safe =
    ground (arith, eq_iff e.id e.id, k safe, k (e.id ∷ safe), k (e.id ∷ e.id ∷ safe))

process_entries-Accounted :
    (batch : Batch) (rest : List Effect)
    → Accounted rest
    → Accounted (process_entries batch ++ rest)
unfolding process_entries
process_entries-Accounted [] rest k = k
process_entries-Accounted ((e, h) ∷ batch) rest k =
    subst Accounted (sym (append_assoc (process_entry e h) (process_entries batch) rest)) (
      process_entry-Accounted e h (process_entries batch ++ rest)
        (process_entries-Accounted batch rest k))

drain_passes-Accounted :
    (left : ℕ) (reads : ℕ → Option Batch) (i : ℕ) (rest : List Effect)
    → Accounted rest
    → Accounted (drain_passes left reads i ++ rest)
unfolding drain_passes
drain_passes-Accounted zero reads i rest k = k
drain_passes-Accounted (suc left) reads i rest k = elim (read-cases (reads i)) [
  | inl e ↦ rw (e, drain_passes) k
  | inr (inl e) ↦ rw (e, drain_passes) k
  | inr (inr (x, xs, e)) ↦
      rw (e, drain_passes)
        (subst Accounted
          (sym (append_assoc (process_entries (x ∷ xs)) (drain_passes left reads (suc i)) rest))
          (process_entries-Accounted (x ∷ xs) (drain_passes left reads (suc i) ++ rest)
            (drain_passes-Accounted left reads (suc i) rest k)))
]

consume_rounds-Accounted : (rounds : List (Option Batch)) → Accounted (consume_rounds rounds)
unfolding consume_rounds
consume_rounds-Accounted [] = λ safe. refl
consume_rounds-Accounted (none ∷ rounds) = consume_rounds-Accounted rounds
consume_rounds-Accounted (some batch ∷ rounds) =
    process_entries-Accounted batch (consume_rounds rounds) (consume_rounds-Accounted rounds)

-- An entry is acknowledged only after its handler returned or after it was written to the dead-letter
-- stream, whatever Redis and the handler answer, in the drain and in any number of rounds.
pub run_acks_safely :
    (reads : ℕ → Option Batch) (rounds : List (Option Batch))
    → accounted [] (run reads rounds) ≡ true
unfolding run drain_pending
run_acks_safely reads rounds =
    drain_passes-Accounted max_passes reads 0 (consume_rounds rounds)
      (consume_rounds-Accounted rounds) []

-- What happens to an entry that is not lost: its handler returned and it was acknowledged, or it is in
-- the dead-letter stream, where the acknowledgement behind that may fail.
pub data Settles (e : Entry) : List Effect → Type 0 where
  acked : Settles e (handled e ∷ xack e.id ∷ [])
  dead : (error : String) → Settles e (dead_letter e error ∷ [])
  dead_acked : (error : String) → Settles e (dead_letter e error ∷ xack e.id ∷ [])
  late_dead : (error : String) → Settles e (handled e ∷ dead_letter e error ∷ [])
  late_dead_acked : (error : String) → Settles e (handled e ∷ dead_letter e error ∷ xack e.id ∷ [])

-- The effects are those of the entries, one after the other.
pub data AllSettled : List Entry → List Effect → Type 0 where
  nothing : AllSettled [] []
  next_entry :
      (e : Entry) (es : List Entry) (effects rest : List Effect)
      → Settles e effects
      → AllSettled es rest
      → AllSettled (e ∷ es) (effects ++ rest)

-- The entries that the rounds read.
pub entries_read : List (Option Batch) → List Entry
entries_read [] = []
entries_read (none ∷ rounds) = entries_read rounds
entries_read (some batch ∷ rounds) = map (λ x. x.0) batch ++ entries_read rounds

-- The dead-letter stream can be written.
unfoldable pub Recoverable : Option Batch → Type 0
Recoverable none = Unit
Recoverable (some batch) = All (λ x. x.1.dead_lettered ≡ true) batch

Settles-handling :
    (e : Entry) (handler_error ack_error : Option String) (dead_acks : Bool)
    → Settles e (
        process_entry e (record {
          handler_error = handler_error;
          ack_error = ack_error;
          dead_lettered = true;
          dead_acked = dead_acks;
        }))
unfolding process_entry
Settles-handling e (some error) ack_error true = dead_acked error
Settles-handling e (some error) ack_error false = dead error
Settles-handling e none none dead_acks = acked
Settles-handling e none (some error) true = late_dead_acked error
Settles-handling e none (some error) false = late_dead error

process_entry-Settles :
    (e : Entry) (h : Handling) → h.dead_lettered ≡ true → Settles e (process_entry e h)
process_entry-Settles e h written =
    subst (λ b. Settles e (process_entry e (record h { dead_lettered = b }))) (sym written)
      (Settles-handling e h.handler_error h.ack_error h.dead_acked)

process_entries-AllSettled :
    (batch : Batch) (es : List Entry) (rest : List Effect)
    → All (λ x. x.1.dead_lettered ≡ true) batch
    → AllSettled es rest
    → AllSettled (map (λ x. x.0) batch ++ es) (process_entries batch ++ rest)
unfolding process_entries
process_entries-AllSettled [] es rest h k = k
process_entries-AllSettled ((e, h) ∷ batch) es rest (written, more) k =
    subst (AllSettled (e ∷ (map (λ x. x.0) batch ++ es)))
      (sym (append_assoc (process_entry e h) (process_entries batch) rest))
      (next_entry e (map (λ x. x.0) batch ++ es) (process_entry e h) (process_entries batch ++ rest)
        (process_entry-Settles e h written) (process_entries-AllSettled batch es rest more k))

-- If the dead-letter stream can be written, no entry that the main loop reads is lost, whatever the
-- handler and the acknowledgements raise: in the order of the reads, each one is handled and
-- acknowledged, or is written to the dead-letter stream exactly once.
pub every_entry_settled :
    (rounds : List (Option Batch))
    → All Recoverable rounds
    → AllSettled (entries_read rounds) (consume_rounds rounds)
unfolding consume_rounds entries_read Recoverable
every_entry_settled [] r = nothing
every_entry_settled (none ∷ rounds) r = every_entry_settled rounds r.1
every_entry_settled (some batch ∷ rounds) r =
    process_entries-AllSettled batch (entries_read rounds) (consume_rounds rounds) r.0
      (every_entry_settled rounds r.1)
