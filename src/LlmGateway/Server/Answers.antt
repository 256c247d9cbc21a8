-- ===== src/LlmGateway/Server/Answers.antt =====
-- The answers of `chat_completions` (llm_gateway/app.py): a hit, a strict miss, and what follows a call
-- of a backend.
use dev_harness.Base.{
  ℕ, Bool, true, false, Option, none, some, [], ◌∷◌, String, pos, take, ◌==◌, str_eq, if◌then◌else◌,
}
use dev_harness.Base.Dict
use dev_harness.Base.Dict.{Dict}
use dev_harness.Base.Text.{Text, codes}
use dev_harness.Base.Json.{Json, Fields, str, object, no_fields, member}
use dev_harness.LlmGateway.Cache
use dev_harness.LlmGateway.Cache.{Cache, CacheEntry}
use dev_harness.LlmGateway.Config.Backends.{
  BackendConfig, GatewayConfig, Mode, disabled, recording, replay, cache_mode,
}
use dev_harness.LlmGateway.Forward.{Outcome, ok, fail, safe_json, forward}
use dev_harness.LlmGateway.Policy.{Selection, select}
use dev_harness.LlmGateway.Server.{
  Outside, World, Reply, Gateway, inc, mark_backend_ok, mark_backend_err, maybe_emit_cache_summary,
  record_spend, record_cache_saving,
}

-- `mode in ("replay", "cache")` and `mode in ("record", "cache")`
abbrev pub looks_up : Mode → Bool
looks_up disabled = false
looks_up recording = false
looks_up replay = true
looks_up cache_mode = true

abbrev pub records_in : Mode → Bool
records_in disabled = false
records_in recording = true
records_in replay = false
records_in cache_mode = true

abbrev pub error_body : Text → Text → Fields → Json
error_body message type more = object (
    member "error" (object (member "message" (str message) (member "type" (str type) more)))
      no_fields)

-- `original_backend_name or "cache"`
abbrev pub served_by : Option String → Text
served_by none = codes "cache"
served_by (some name) = if str_eq name "" then codes "cache" else codes name

abbrev pub short_key : String → Text
short_key key = take 12 (codes key)

abbrev pub without_hop_headers : Dict Text → Dict Text
without_hop_headers headers =
    Dict.erase "transfer-encoding"
      (Dict.erase "content-encoding" (Dict.erase "content-length" headers))

abbrev pub saved_header : Outside → Option (String × ℕ) → Dict Text
saved_header out none = []
saved_header out (some (name, n)) =
    if n == 0 then [] else ("x-sdlcma-cost-saved-usd", out.money n) ∷ []

abbrev pub add_saving : Option (String × ℕ) → Gateway → Gateway
add_saving none g = g
add_saving (some (name, n)) g = record g { cost_saved_usd = inc name n g.cost_saved_usd }

abbrev pub hit_reply : Outside → String → CacheEntry → Option (String × ℕ) → Json → Reply
hit_reply out key e saving body = record {
  status = e.response_status_code;
  headers =
      ("x-sdlcma-backend-name", served_by e.original_backend_name)
      ∷ ("x-sdlcma-cache", codes "hit")
      ∷ ("x-sdlcma-cache-key", short_key key)
      ∷ ("x-sdlcma-cost-usd", codes "0")
      ∷ saved_header out saving;
  content = body;
}

abbrev pub booked :
    Outside
    → Gateway
    → String
    → CacheEntry
    → Json
    → Option (Option (String × ℕ))
    → Gateway × Option Reply
booked out g key e body none = (g, none)
booked out g key e body (some saving) =
    (add_saving saving g, some (hit_reply out key e saving body))

-- The answer from the cache. A sleep of `replay_with_latency` changes no state.
unfoldable pub answer_hit :
    Outside → GatewayConfig → Gateway → String → CacheEntry → Gateway × Option Reply
answer_hit out cfg g key e =
    let body = safe_json out.loads out.decode out.upstream e.response_body in
    booked out (maybe_emit_cache_summary cfg g) key e body
      (record_cache_saving cfg e.original_backend_name body)

-- The answer of a miss in replay mode; `debugging` tells that `CACHE_DEBUG_MISS_DUMP` is set.
abbrev pub miss_reply : Bool → String → Reply
miss_reply debugging key = record {
  status = if debugging then 404 else 409;
  headers = ("x-sdlcma-cache", codes "miss") ∷ ("x-sdlcma-cache-key", short_key key) ∷ [];
  content =
      error_body (codes "cache miss in replay mode") (codes "cache_miss_replay")
        (member "cache_key" (str (short_key key)) no_fields);
}

abbrev pub add_spend : BackendConfig → Option ℕ → Gateway → Gateway
add_spend backend none g = g
add_spend backend (some n) g = record g { cost_usd = inc backend.name n g.cost_usd }

abbrev pub cost_header : Outside → Option ℕ → Dict Text → Dict Text
cost_header out none headers = headers
cost_header out (some n) headers = Dict.insert "x-sdlcma-cost-usd" (out.money n) headers

abbrev pub miss_headers : String → Dict Text → Dict Text
miss_headers key headers =
    Dict.insert "x-sdlcma-cache-key" (short_key key)
      (Dict.insert "x-sdlcma-cache" (codes "miss") headers)

-- Where a success goes: the cache after it, and the headers.
abbrev pub put_bytes :
    World → String → Text → ℕ → String → Cache → Dict Text → Option Cache × Dict Text
put_bytes world key [] status backend c headers = (some c, headers)
put_bytes world key (b ∷ bytes) status backend c headers = (
  some
      (Cache.put world.sqlite world.now key (b ∷ bytes) status world.wallclock_ms (some backend) c),
  miss_headers key headers,
)

abbrev pub stored :
    Outside
    → World
    → Mode
    → String
    → ℕ
    → Json
    → String
    → Option Cache
    → Dict Text
    → Option Cache × Dict Text
stored out world mode key status body backend none headers = (none, headers)
stored out world mode key status body backend (some c) headers =
    if records_in mode
    then put_bytes world key (out.dumps body) status backend c headers
    else (some c, Dict.insert "x-sdlcma-cache" (codes "disabled") headers)

abbrev pub replied :
    GatewayConfig → Gateway → ℕ → Json → Option Cache × Dict Text → Gateway × Option Reply
replied cfg g status body (cache, headers) = (
  maybe_emit_cache_summary cfg (record g { cache = cache }),
  some (record { status = status; headers = headers; content = body }),
)

abbrev pub spent :
    Outside
    → World
    → GatewayConfig
    → Gateway
    → String
    → BackendConfig
    → ℕ
    → Dict Text
    → Json
    → Option (Option ℕ)
    → Gateway × Option Reply
spent out world cfg g key backend status headers body none = (g, none)
spent out world cfg g key backend status headers body (some spend) =
    replied cfg (add_spend backend spend g) status body (
      stored out world cfg.cache.mode key status body backend.name g.cache
        (cost_header out spend headers))

abbrev pub response_headers : BackendConfig → Dict Text → Dict Text
response_headers backend headers =
    without_hop_headers (Dict.insert "x-sdlcma-backend-name" (codes backend.name) headers)

-- The status and the body of a failure.
abbrev pub failure_reply : Outside → BackendConfig → ℕ → Dict Text → Text → Text → Reply
failure_reply out backend status headers [] err = record {
  status = 502;
  headers = response_headers backend headers;
  content =
      error_body (out.unreachable backend.name err) (codes "gateway_upstream_unreachable")
        (member "backend" (str (codes backend.name)) no_fields);
}
failure_reply out backend status headers (b ∷ bytes) err = record {
  status = status;
  headers = response_headers backend headers;
  content = safe_json out.loads out.decode out.upstream (b ∷ bytes);
}

-- What follows `_forward`
unfoldable pub answer_outcome :
    Outside
    → World
    → GatewayConfig
    → Gateway
    → String
    → BackendConfig
    → Outcome
    → Gateway × Option Reply
answer_outcome out world cfg g key backend (ok status headers body) =
    spent out world cfg (mark_backend_ok world.now backend.name g) key backend status
      (response_headers backend headers) body (record_spend backend body)
answer_outcome out world cfg g key backend (fail status headers bytes err) =
    (mark_backend_err backend.name err g, some (failure_reply out backend status headers bytes err))

abbrev pub forwarded :
    Outside
    → World
    → GatewayConfig
    → Gateway
    → String
    → Dict Json
    → Option (Selection BackendConfig)
    → Gateway × Option Reply
forwarded out world cfg g key body none = (g, none)
forwarded out world cfg g key body (some sel) =
    answer_outcome out world cfg g key sel.backend
      (forward out.loads out.decode out.upstream world.mint world.post sel.backend body).outcome

-- The backend is selected and called.
unfoldable pub answer_upstream :
    Outside → World → GatewayConfig → Gateway → String → ℕ → Dict Json → Gateway × Option Reply
answer_upstream out world cfg g key attempt body =
    forwarded out world cfg g key body (select cfg.policy cfg.backends_by_name (pos attempt))
