-- ===== src/LlmGateway/Cache.antt =====
-- llm_gateway/cache.py: the stored responses and the counters. Whether a statement of SQLite succeeds is
-- an argument.
use dev_harness.Base.{ℕ, ◌+◌, Bool, Option, none, some, String, if◌then◌else◌}
use dev_harness.Base.Dict
use dev_harness.Base.Dict.{Dict}
use dev_harness.Base.Text.{Text}

-- A row of `cache_entries`, and `CacheEntry`
pub record CacheEntry : Type 0 where
  pub response_body : Text
  pub response_status_code : ℕ
  pub original_wallclock_ms : ℕ
  pub original_backend_name : Option String
  pub recorded_at_ms : ℕ
  pub hit_count : ℕ

pub record CacheStats : Type 0 where
  pub hits : ℕ
  pub misses : ℕ
  pub records : ℕ
  pub errors : ℕ

pub record Cache : Type 0 where
  pub rows : Dict CacheEntry
  pub stats : CacheStats

-- What SQLite does in a request: the query, the count of the hit and the upsert succeed.
pub record Sqlite : Type 0 where
  pub reads : Bool
  pub bumps : Bool
  pub writes : Bool

abbrev pub bumped : CacheEntry → CacheEntry
bumped e = record e { hit_count = e.hit_count + 1 }

abbrev errors_up : CacheStats → CacheStats
errors_up s = record s { errors = s.errors + 1 }

abbrev hits_up : CacheStats → CacheStats
hits_up s = record s { hits = s.hits + 1 }

abbrev pub found : Bool → String → Cache → Option CacheEntry → Cache × Option CacheEntry
found bumps key c none = (record c { stats = record c.stats { misses = c.stats.misses + 1 } }, none)
found bumps key c (some e) = (
  record {
    rows = if bumps then Dict.insert key (bumped e) c.rows else c.rows;
    stats = hits_up (if bumps then c.stats else errors_up c.stats);
  },
  some (bumped e),
)

-- `Cache.get`
unfoldable pub get : Sqlite → String → Cache → Cache × Option CacheEntry
get sqlite key c =
    if sqlite.reads
    then found sqlite.bumps key c (Dict.lookup key c.rows)
    else (record c { stats = errors_up c.stats }, none)

-- The count of hits that the upsert keeps.
abbrev pub hits_of : Option CacheEntry → ℕ
hits_of none = 0
hits_of (some e) = e.hit_count

-- The row of the upsert, where `old` is the row that is there.
abbrev pub new_row : ℕ → Text → ℕ → ℕ → Option String → Option CacheEntry → CacheEntry
new_row now_ms body status wallclock_ms backend old = record {
  response_body = body;
  response_status_code = status;
  original_wallclock_ms = wallclock_ms;
  original_backend_name = backend;
  recorded_at_ms = now_ms;
  hit_count = hits_of old;
}

-- `Cache.put`
unfoldable pub put : Sqlite → ℕ → String → Text → ℕ → ℕ → Option String → Cache → Cache
put sqlite now_ms key body status wallclock_ms backend c =
    if sqlite.writes
    then record {
      rows =
          Dict.insert key (new_row now_ms body status wallclock_ms backend (Dict.lookup key c.rows))
            c.rows;
      stats = record c.stats { records = c.stats.records + 1 };
    }
    else record c { stats = errors_up c.stats }
