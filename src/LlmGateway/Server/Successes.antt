-- ===== src/LlmGateway/Server/Successes.antt =====
-- Only successes are cached by `chat_completions` of llm_gateway/app.py.
use dev_harness.Base.{
  ℕ, ◌<◌, ◌≡◌, refl, sym, subst, Bool, true, false, Option, none, some, List, [], ◌∷◌, String, All,
  Bool-cases, inl, inr, arith,
}
use dev_harness.Base.Dict
use dev_harness.Base.Dict.{Dict, All-insert, All-lookup}
use dev_harness.Base.Text.{Text}
use dev_harness.Base.Json.{Json, null, bool, number, str, array, object}
use dev_harness.LlmGateway.Cache
use dev_harness.LlmGateway.Cache.{Cache, CacheEntry, Sqlite, found}
use dev_harness.LlmGateway.Config.Backends.{BackendConfig, GatewayConfig, Mode, replay}
use dev_harness.LlmGateway.Forward.{Outcome, ok, fail}
use dev_harness.LlmGateway.Forward.Tries.{RightKind, forward-RightKind}
use dev_harness.LlmGateway.Policy.{Selection, parse_attempt_header}
use dev_harness.LlmGateway.Server.{
  Outside, World, Request, Gateway, count_request, maybe_emit_cache_summary, record_spend,
}
use dev_harness.LlmGateway.Server.Answers.{
  records_in, looks_up, add_spend, booked, answer_hit, put_bytes, stored, cost_header, replied,
  spent, answer_outcome, forwarded, answer_upstream,
}
use dev_harness.LlmGateway.Server.Chat.{
  with_cache, key_of, answer_miss, answer_lookup, answer_with, answer_json, chat_completions, serve,
  to_dict,
}

-- The statuses of the stored responses are below 400.
unfoldable pub Successes : Option Cache → Type 0
Successes none = Unit
Successes (some c) = All (λ (kv : String × CacheEntry). kv.1.response_status_code < 400) c.rows

count_request-cache :
    (n : ℕ) (g : Gateway) (c : Option Cache) → (count_request n g c).cache ≡ g.cache
count_request-cache n g none = refl
count_request-cache n g (some c) = ground arith

pub summary-cache :
    (cfg : GatewayConfig) (g : Gateway) → (maybe_emit_cache_summary cfg g).cache ≡ g.cache
summary-cache cfg g = count_request-cache cfg.cache.log_every_n g g.cache

found-Successes :
    (bumps : Bool) (key : String) (c : Cache) (o : Option CacheEntry)
    → Dict.lookup key c.rows ≡ o
    → Successes (some c)
    → Successes (some (found bumps key c o).0)
unfolding Successes
found-Successes bumps key c none e h = h
found-Successes true key c (some entry) e h =
    All-insert _ key _ c.rows (All-lookup _ key entry c.rows h e) h
found-Successes false key c (some entry) e h = h

get-Successes :
    (sqlite : Sqlite) (key : String) (c : Cache)
    → Successes (some c)
    → Successes (some (Cache.get sqlite key c).0)
unfolding Successes Cache.get
get-Successes sqlite key c h = elim (Bool-cases sqlite.reads) [
  | inl e ↦ rw e (found-Successes sqlite.bumps key c (Dict.lookup key c.rows) refl h)
  | inr e ↦ rw e h
]

put-Successes :
    (sqlite : Sqlite) (now : ℕ) (key : String) (body : Text) (status ms : ℕ) (b : Option String)
    (c : Cache)
    → status < 400
    → Successes (some c)
    → Successes (some (Cache.put sqlite now key body status ms b c))
unfolding Successes Cache.put
put-Successes sqlite now key body status ms b c lt h = elim (Bool-cases sqlite.writes) [
  | inl e ↦ rw e (All-insert _ key _ c.rows lt h)
  | inr e ↦ rw e h
]

module _ (out : Outside) (cfg : GatewayConfig) where
  put_bytes-Successes :
      (world : World) (key : String) (bytes : Text) (status : ℕ) (backend : String) (c : Cache)
      (headers : Dict Text)
      → status < 400
      → Successes (some c)
      → Successes (put_bytes world key bytes status backend c headers).0
  put_bytes-Successes world key [] status backend c headers lt h = h
  put_bytes-Successes world key (b ∷ bytes) status backend c headers lt h =
      put-Successes world.sqlite world.now key (b ∷ bytes) status world.wallclock_ms (some backend)
        c lt h

  stored-Successes :
      (world : World) (key : String) (status : ℕ) (body : Json) (backend : String)
      (cache : Option Cache) (headers : Dict Text)
      → status < 400
      → Successes cache
      → Successes (stored out world cfg.cache.mode key status body backend cache headers).0
  stored-Successes world key status body backend none headers lt h = h
  stored-Successes world key status body backend (some c) headers lt h =
      elim (Bool-cases (records_in cfg.cache.mode)) [
        | inl e ↦
            rw e (put_bytes-Successes world key (out.dumps body) status backend c headers lt h)
        | inr e ↦ rw e h
      ]

  summary-Successes :
      (g : Gateway) → Successes g.cache → Successes (maybe_emit_cache_summary cfg g).cache
  summary-Successes g h = subst Successes (sym (summary-cache cfg g)) h

  replied-Successes :
      (g : Gateway) (status : ℕ) (body : Json) (st : Option Cache × Dict Text)
      → Successes st.0
      → Successes (replied cfg g status body st).0.cache
  replied-Successes g status body (cache, headers) h =
      summary-Successes (record g { cache = cache }) h

  spent-Successes :
      (world : World) (g : Gateway) (key : String) (backend : BackendConfig) (status : ℕ)
      (headers : Dict Text) (body : Json) (spend : Option (Option ℕ))
      → status < 400
      → Successes g.cache
      → Successes (spent out world cfg g key backend status headers body spend).0.cache
  spent-Successes world g key backend status headers body none lt h = h
  spent-Successes world g key backend status headers body (some n) lt h =
      replied-Successes (add_spend backend n g) status body
        (stored out world cfg.cache.mode key status body backend.name g.cache
          (cost_header out n headers))
        (stored-Successes world key status body backend.name g.cache (cost_header out n headers) lt
          h)

  answer_outcome-Successes :
      (world : World) (g : Gateway) (key : String) (backend : BackendConfig) (o : Outcome)
      → RightKind o
      → Successes g.cache
      → Successes (answer_outcome out world cfg g key backend o).0.cache
  unfolding answer_outcome RightKind
  answer_outcome-Successes world g key backend (ok status headers body) lt h =
      spent-Successes world _ key backend status _ body (record_spend backend body) lt h
  answer_outcome-Successes world g key backend (fail status headers bytes err) lt h = h

  forwarded-Successes :
      (world : World) (g : Gateway) (key : String) (body : Dict Json)
      (sel : Option (Selection BackendConfig))
      → Successes g.cache
      → Successes (forwarded out world cfg g key body sel).0.cache
  forwarded-Successes world g key body none h = h
  forwarded-Successes world g key body (some sel) h =
      answer_outcome-Successes world g key sel.backend _
        (forward-RightKind out.loads out.decode out.upstream world.mint world.post sel.backend body)
        h

  answer_upstream-Successes :
      (world : World) (g : Gateway) (key : String) (attempt : ℕ) (body : Dict Json)
      → Successes g.cache
      → Successes (answer_upstream out world cfg g key attempt body).0.cache
  unfolding answer_upstream
  answer_upstream-Successes world g key attempt body h = forwarded-Successes world g key body _ h

  booked-Successes :
      (g : Gateway) (key : String) (e : CacheEntry) (body : Json)
      (saving : Option (Option (String × ℕ)))
      → Successes g.cache
      → Successes (booked out g key e body saving).0.cache
  booked-Successes g key e body none h = h
  booked-Successes g key e body (some none) h = h
  booked-Successes g key e body (some (some (name, n))) h = h

  answer_hit-Successes :
      (g : Gateway) (key : String) (e : CacheEntry)
      → Successes g.cache
      → Successes (answer_hit out cfg g key e).0.cache
  unfolding answer_hit
  answer_hit-Successes g key e h = booked-Successes _ key e _ _ (summary-Successes g h)

  module _ (debugging : Bool) where
    answer_miss-Successes :
        (world : World) (g : Gateway) (key : String) (attempt : ℕ) (body : Dict Json) (mode : Mode)
        → Successes g.cache
        → Successes (answer_miss out debugging cfg world g key attempt body mode).0.cache
    answer_miss-Successes world g key attempt body replay h = summary-Successes g h
    answer_miss-Successes world g key attempt body _ h =
        answer_upstream-Successes world g key attempt body h

    answer_lookup-Successes :
        (world : World) (g : Gateway) (key : String) (attempt : ℕ) (body : Dict Json)
        (found : Cache × Option CacheEntry)
        → Successes (some found.0)
        → Successes (answer_lookup out debugging cfg world g key attempt body found).0.cache
    answer_lookup-Successes world g key attempt body (c, some e) h =
        answer_hit-Successes (with_cache c g) key e h
    answer_lookup-Successes world g key attempt body (c, none) h =
        answer_miss-Successes world (with_cache c g) key attempt body cfg.cache.mode h

    answer_with-Successes :
        (world : World) (g : Gateway) (attempt : ℕ) (body : Dict Json) (cache : Option Cache)
        → g.cache ≡ cache
        → Successes cache
        → Successes (answer_with out debugging cfg world g attempt body cache).0.cache
    answer_with-Successes world g attempt body none e h =
        answer_upstream-Successes world g "" attempt body (subst Successes (sym e) h)
    answer_with-Successes world g attempt body (some c) e h =
        elim (Bool-cases (looks_up cfg.cache.mode)) [
          | inl q ↦ rw q (
              answer_lookup-Successes world g (key_of out cfg body) attempt body _
                (get-Successes world.sqlite (key_of out cfg body) c h))
          | inr q ↦ rw q (
              answer_upstream-Successes world g (key_of out cfg body) attempt body
                (subst Successes (sym e) h))
        ]

    answer_json-Successes :
        (world : World) (g : Gateway) (attempt : ℕ) (body : Option Json)
        → Successes g.cache
        → Successes (answer_json out debugging cfg world g attempt body).0.cache
    answer_json-Successes world g attempt none h = h
    answer_json-Successes world g attempt (some (object ms)) h =
        answer_with-Successes world g attempt (to_dict ms []) g.cache refl h
    answer_json-Successes world g attempt (some null) h = h
    answer_json-Successes world g attempt (some (bool b)) h = h
    answer_json-Successes world g attempt (some (number n)) h = h
    answer_json-Successes world g attempt (some (str s)) h = h
    answer_json-Successes world g attempt (some (array l)) h = h

    -- Whatever requests come and whatever the backends, the clock and SQLite do, every response in the
    -- cache has a status below 400, if that holds at the start: an error of a backend is never stored.
    pub serve-Successes :
        (rs : List (World × Request)) (g : Gateway)
        → Successes g.cache
        → Successes (serve out debugging cfg rs g).cache
    unfolding serve chat_completions
    serve-Successes [] g h = h
    serve-Successes ((world, request) ∷ rs) g h =
        serve-Successes rs (chat_completions out debugging cfg world g request).0 (
          answer_json-Successes world g (parse_attempt_header request.attempt)
            (out.loads request.raw_body) h)
