-- ===== src/Orchestrator/Dispatcher.antt =====
-- orchestrator/dispatcher.py: `DistributedDispatcher`, which gives tasks to daemons in turn. Redis is
-- outside: its answers are arguments, and what the dispatcher asks of it is returned as commands.
-- Times are milliseconds. `none` is an exception that leaves the call.
pub mod Choice
pub mod Turns
pub mod Tasks
use dev_harness.Base.{
  ℕ, zero, suc, ◌+◌, ◌-◌, ◌%◌, Bool, true, false, not, ◌&&◌, Option, none, some, List, [], ◌∷◌, map,
  String, ℤ, pos, negsuc, is_pos, ltb, leb, length, get_elem?, if◌then◌else◌, ◌>>=◌,
}
use dev_harness.Base.Dict
use dev_harness.Base.Dict.{Dict, keys}
use dev_harness.Base.Sorting.{sorted}
use dev_harness.Base.Text.{codes, parse_int}

pub record DaemonInfo : Type 0 where
  pub daemon_id : String
  pub free_slots : ℤ
  pub free_memory_mb : ℤ
  pub hostname : String
  pub concurrency : ℤ
  pub last_hb_ts : ℤ

abbrev or_else : Option String → String → String
or_else none default = default
or_else (some s) default = s

-- `_b`: a number of the hash.
number : String → Dict String → Option ℤ
number key raw = parse_int (codes (or_else (Dict.lookup key raw) "0"))

-- `DaemonInfo.from_hash`
unfoldable pub from_hash : String → Dict String → Option DaemonInfo
unfolding number
from_hash daemon_id raw = do
  free_slots ← number "free_slots" raw
  free_memory_mb ← number "free_memory_mb" raw
  concurrency ← number "concurrency" raw
  last_hb_ts ← number "last_hb_ts" raw
  some (record {
    daemon_id = daemon_id;
    free_slots = free_slots;
    free_memory_mb = free_memory_mb;
    hostname = or_else (Dict.lookup "hostname" raw) "";
    concurrency = concurrency;
    last_hb_ts = last_hb_ts;
  })

abbrev at_least : ℕ → ℤ → Bool
at_least m (pos n) = leb m n
at_least m (negsuc n) = false

pub is_alive : DaemonInfo → Bool
is_alive info = is_pos info.last_hb_ts

pub can_accept : ℕ → DaemonInfo → Bool
can_accept min_free_memory_mb info =
    is_pos info.free_slots && at_least min_free_memory_mb info.free_memory_mb

pub record Dispatcher : Type 0 where
  pub cache_ttl : ℕ
  pub min_free_memory_mb : ℕ
  pub judge_pointer : ℕ
  pub daemon_cache : Dict DaemonInfo
  pub cache_fetched_at : ℕ

-- The members of the set of daemons, each with its hash, which is empty where it has expired.
abbrev pub Members : Type 0
Members = List (String × Dict String)

unfoldable pub read_members : Dict DaemonInfo → Members → Option (Dict DaemonInfo)
read_members cache [] = some cache
read_members cache ((daemon_id, []) ∷ rest) = read_members cache rest
read_members cache ((daemon_id, field ∷ raw) ∷ rest) = elim (from_hash daemon_id (field ∷ raw)) [
  | none ↦ none
  | some info ↦ read_members (Dict.insert daemon_id info cache) rest
]

-- `_maybe_refresh_cache`
unfoldable pub maybe_refresh_cache : ℕ → Members → Dispatcher → Option Dispatcher
unfolding read_members
maybe_refresh_cache now members d =
    if ltb (now - d.cache_fetched_at) d.cache_ttl then some d else elim (read_members [] members) [
      | none ↦ none
      | some cache ↦ some (record d { daemon_cache = cache; cache_fetched_at = now })
    ]

-- The tests on one daemon of the cache.
unfoldable pub eligible : ℕ → Dict DaemonInfo → String → Bool
unfolding is_alive can_accept
eligible min cache daemon_id = elim (Dict.lookup daemon_id cache) [
  | none ↦ false
  | some info ↦ is_alive info && can_accept min info
]

-- The loop over `offset`, with `left` offsets to go: the daemon and its index.
unfoldable pub scan : (String → Bool) → List String → ℕ → ℕ → ℕ → Option (String × ℕ)
scan ok daemon_ids pointer offset zero = none
scan ok daemon_ids pointer offset (suc left) =
    let rest = scan ok daemon_ids pointer (suc offset) left in
    let idx = (pointer + offset) % length daemon_ids in
    elim (get_elem? daemon_ids idx) [
      | none ↦ rest
      | some daemon_id ↦ if ok daemon_id then some (daemon_id, idx) else rest
    ]

abbrev pub clamp : ℕ → ℕ → ℕ
clamp n pointer = if leb n pointer then 0 else pointer

-- The choice among `daemon_ids`, and the new pointer.
unfoldable pub choose_among : (String → Bool) → List String → ℕ → Option String × ℕ
choose_among ok [] pointer = (none, pointer)
choose_among ok (id ∷ ids) pointer =
    let n = length (id ∷ ids) in
    let start = clamp n pointer in
    elim (scan ok (id ∷ ids) start 0 n) [
      | some (daemon_id, idx) ↦ (some daemon_id, suc idx % n)
      | none ↦ (none, suc start % n)
    ]

-- `_choose_daemon` behind the refresh.
unfoldable pub choose : Dispatcher → Option String × Dispatcher
choose d =
    let (chosen, pointer) =
      choose_among (eligible d.min_free_memory_mb d.daemon_cache) (sorted (keys d.daemon_cache))
        d.judge_pointer in
    (chosen, record d { judge_pointer = pointer })

-- `_choose_daemon`
unfoldable pub choose_daemon : ℕ → Members → Dispatcher → Option (Option String × Dispatcher)
choose_daemon now members d = elim (maybe_refresh_cache now members d) [
  | none ↦ none
  | some d' ↦ some (choose d')
]
