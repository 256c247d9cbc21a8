-- ===== src/LlmGateway/Server.antt =====
-- `chat_completions` of llm_gateway/app.py, with the state of the process. The functions of json,
-- hashlib and re and the formatting of texts are the fields of `Outside`; what a request meets outside
-- the process is `World`. `none` for a reply is an exception that the handler raises. Of the counters
-- of prometheus only the two of money are modelled.
pub mod Answers
pub mod Chat
pub mod Successes
pub mod Stored
pub mod Recording
pub mod Replay
pub mod SameAnswers
use dev_harness.Base.{
  ℕ, ◌+◌, ◌%◌, Bool, true, false, not, ◌&&◌, ◌||◌, Option, none, some, List, [], ◌∷◌, String, ℤ,
  pos, negsuc, take, ltb, ◌==◌, str_eq, if◌then◌else◌, ◌>>=◌,
}
use dev_harness.Base.Dict
use dev_harness.Base.Dict.{Dict}
use dev_harness.Base.Text.{Text, codes}
use dev_harness.Base.Json.{Json, Fields, str, object, no_fields, member}
use dev_harness.LlmGateway.Cache
use dev_harness.LlmGateway.Cache.{Cache, CacheEntry, Sqlite}
use dev_harness.LlmGateway.Config.Backends.{
  Auth, BackendConfig, GatewayConfig, Mode, disabled, recording, replay, cache_mode,
}
use dev_harness.LlmGateway.Costs.{read_usage, cost_of}
use dev_harness.LlmGateway.Forward.{Post, Minted, Outcome, ok, fail, Forwarded, safe_json, forward}
use dev_harness.LlmGateway.Keying.{normalize_volatile_content, derive_key}
use dev_harness.LlmGateway.Policy.{Selection, select, parse_attempt_header}
use dev_harness.Worker.Usage.{Usage}

-- `json`, `hashlib`, `re`, `str.format`; a pattern of `_NORMALIZE_PATTERNS` is known by a number.
pub record Outside : Type 0 where
  pub loads : Text → Option Json
  pub dumps : Json → Text
  pub decode : Text → Text
  pub digest : Json → String
  pub show : Json → Text
  pub sub : ℕ → Text → Text → Text
  pub patterns : List (ℕ × Text)
  pub upstream : ℕ → Text
  pub money : ℕ → Text
  pub unreachable : String → Text → Text

-- What one request meets: the clock, the measured time, SQLite, the providers of tokens and the backends.
pub record World : Type 0 where
  pub now : ℕ
  pub wallclock_ms : ℕ
  pub sqlite : Sqlite
  pub mint : Auth → Minted
  pub post : Text → Text → Dict Json → ℕ → Post

pub record Request : Type 0 where
  pub attempt : Option String
  pub raw_body : Text

pub record Reply : Type 0 where
  pub status : ℕ
  pub headers : Dict Text
  pub content : Json

pub record Health : Type 0 where
  pub last_ok_ts : Option ℕ
  pub last_err : Option Text

-- `_state`, and the two counters of money, by backend
pub record Gateway : Type 0 where
  pub cache : Option Cache
  pub backend_health : Dict Health
  pub cache_request_count : ℕ
  pub cost_usd : Dict ℕ
  pub cost_saved_usd : Dict ℕ

-- `.labels(backend=name).inc(n)`
abbrev pub or_zero : Option ℕ → ℕ
or_zero none = 0
or_zero (some n) = n

abbrev pub inc : String → ℕ → Dict ℕ → Dict ℕ
inc name n d = Dict.insert name (or_zero (Dict.lookup name d) + n) d

-- `_mark_backend_ok`, `_mark_backend_err`
abbrev pub mark_backend_ok : ℕ → String → Gateway → Gateway
mark_backend_ok now name g = record g {
  backend_health =
      Dict.insert name (record { last_ok_ts = some now; last_err = none }) g.backend_health;
}

abbrev pub last_ok_of : Option Health → Option ℕ
last_ok_of none = none
last_ok_of (some h) = h.last_ok_ts

abbrev pub mark_backend_err : String → Text → Gateway → Gateway
mark_backend_err name err g = record g {
  backend_health =
      Dict.insert name
        (record {
          last_ok_ts = last_ok_of (Dict.lookup name g.backend_health);
          last_err = some err;
        })
        g.backend_health;
}

abbrev pub count_request : ℕ → Gateway → Option Cache → Gateway
count_request log_every_n g none = g
count_request log_every_n g (some c) =
    if log_every_n == 0 then g else record g { cache_request_count = g.cache_request_count + 1 }

-- `_maybe_emit_cache_summary`
abbrev pub maybe_emit_cache_summary : GatewayConfig → Gateway → Gateway
maybe_emit_cache_summary cfg g = count_request cfg.cache.log_every_n g g.cache

-- A counter of prometheus refuses a negative amount.
abbrev pub countable : ℤ → Option (Unit {0})
countable (pos n) = some tt
countable (negsuc n) = none

abbrev pub metered : BackendConfig → Option Usage → Option (Option ℕ)
metered backend none = some none
metered backend (some u) = do
  _ ← countable u.prompt
  _ ← countable u.completion
  _ ← countable u.cached
  some (cost_of backend.pricing (some u))

-- `_record_spend`: the cost, beside an exception
unfoldable pub record_spend : BackendConfig → Json → Option (Option ℕ)
record_spend backend body = do usage ← read_usage body; metered backend usage

-- `_record_cache_saving`: the saving with the backend that it is booked on
abbrev pub saving_on : Option BackendConfig → Json → Option (Option (String × ℕ))
saving_on none body = some none
saving_on (some backend) body = do
  usage ← read_usage body
  some (elim (cost_of backend.pricing usage) [ none ↦ none | some n ↦ some (backend.name, n) ])

unfoldable pub record_cache_saving :
    GatewayConfig → Option String → Json → Option (Option (String × ℕ))
record_cache_saving cfg none body = some none
record_cache_saving cfg (some name) body =
    if str_eq name "" then some none else saving_on (Dict.lookup name cfg.backends_by_name) body
