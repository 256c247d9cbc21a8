-- ===== src/LlmGateway/Server/Replay.antt =====
-- A response that `chat_completions` of llm_gateway/app.py recorded is replayed.
use dev_harness.Base.{
  ℕ, ◌≡◌, refl, sym, ◌∙◌, ap, subst, Bool, true, Option, none, some, List, [], ◌∷◌, String, str_eq,
  Bool-cases, Option-cases, inl, inr, arith,
}
use dev_harness.Base.Dict
use dev_harness.Base.Dict.{Dict, lookup-insert}
use dev_harness.Base.Text.{codes}
use dev_harness.Base.Json.{Json, Fields, null, bool, number, str, array, object}
use dev_harness.LlmGateway.Cache
use dev_harness.LlmGateway.Cache.{Cache, CacheEntry, Sqlite, found, bumped, new_row}
use dev_harness.LlmGateway.Config.Backends.{BackendConfig, GatewayConfig, replay}
use dev_harness.LlmGateway.Costs.{read_usage, cost_of}
use dev_harness.LlmGateway.Policy.{parse_attempt_header}
use dev_harness.LlmGateway.Server.{
  Outside, World, Request, Reply, Gateway, count_request, maybe_emit_cache_summary,
  record_cache_saving, saving_on,
}
use dev_harness.LlmGateway.Server.Answers.{looks_up, answer_hit, hit_reply, booked}
use dev_harness.LlmGateway.Server.Chat.{
  with_cache, key_of, answer_lookup, answer_with, answer_json, chat_completions, serve, to_dict,
}
use dev_harness.LlmGateway.Server.Stored.{RoundTrips, Holds, InCache, get-Holds}
use dev_harness.LlmGateway.Server.Successes.{summary-cache}
use dev_harness.Worker.Usage.{Usage}

-- What a replayed request gets: the status and the content, at no cost.
pub record Replays (status : ℕ) (j : Json) (g : Gateway) (result : Gateway × Option Reply)
    : Type 0 where
  pub reply : Reply
  pub answered : result.1 ≡ some reply
  pub same_status : reply.status ≡ status
  pub same_content : reply.content ≡ j
  pub free : Dict.lookup "x-sdlcma-cost-usd" reply.headers ≡ some (codes "0")
  pub nothing_spent : result.0.cost_usd ≡ g.cost_usd
  pub no_backend_called : result.0.backend_health ≡ g.backend_health

module _ (out : Outside) (debugging : Bool) (cfg : GatewayConfig)
    (m : cfg.cache.mode ≡ replay) where
  -- In replay mode a request is answered from the cache, or by a miss.
  chat_in_replay :
      (world : World) (g : Gateway) (c : Cache) (request : Request) (ms : Fields)
      → g.cache ≡ some c
      → out.loads request.raw_body ≡ some (object ms)
      → chat_completions out debugging cfg world g request
        ≡ answer_lookup out debugging cfg world g
            (key_of out cfg (to_dict ms []))
            (parse_attempt_header request.attempt)
            (to_dict ms [])
            (Cache.get world.sqlite (key_of out cfg (to_dict ms [])) c)
  unfolding chat_completions
  chat_in_replay world g c request ms e l = rw (l, e, m) refl

  module _ (key : String) (status : ℕ) (j : Json) where
    unfoldable pub InGateway : Gateway → Type 0
    InGateway g = InCache out key status j g.cache

    summary-InGateway : (g : Gateway) → InGateway g → InGateway (maybe_emit_cache_summary cfg g)
    unfolding InGateway
    summary-InGateway g h = subst (InCache out key status j) (sym (summary-cache cfg g)) h

    booked-InGateway :
        (g : Gateway) (k : String) (e : CacheEntry) (body : Json)
        (saving : Option (Option (String × ℕ)))
        → InGateway g
        → InGateway (booked out g k e body saving).0
    unfolding InGateway
    booked-InGateway g k e body none h = h
    booked-InGateway g k e body (some none) h = h
    booked-InGateway g k e body (some (some (name, n))) h = h

    lookup-InGateway :
        (world : World) (g : Gateway) (k : String) (attempt : ℕ) (body : Dict Json)
        (found : Cache × Option CacheEntry)
        → InCache out key status j (some found.0)
        → InGateway (answer_lookup out debugging cfg world g k attempt body found).0
    unfolding InGateway answer_hit
    lookup-InGateway world g k attempt body (c, some e) h =
        booked-InGateway _ k e _ _ (summary-InGateway (with_cache c g) h)
    lookup-InGateway world g k attempt body (c, none) h =
        rw m (summary-InGateway (with_cache c g) h)

    answer_with-InGateway :
        (world : World) (g : Gateway) (attempt : ℕ) (body : Dict Json) (cache : Option Cache)
        → InCache out key status j cache
        → InGateway (answer_with out debugging cfg world g attempt body cache).0
    unfolding InCache
    answer_with-InGateway world g attempt body none h = absurd h
    answer_with-InGateway world g attempt body (some c) h =
        let k = key_of out cfg body in
        let kept = get-Holds out world.sqlite key k status j c h in
        let q : looks_up cfg.cache.mode ≡ true = ap looks_up m in
        rw q (lookup-InGateway world g k attempt body (Cache.get world.sqlite k c) kept)

    answer_json-InGateway :
        (world : World) (g : Gateway) (attempt : ℕ) (body : Option Json)
        → InGateway g
        → InGateway (answer_json out debugging cfg world g attempt body).0
    unfolding InGateway
    answer_json-InGateway world g attempt none h = h
    answer_json-InGateway world g attempt (some (object ms)) h =
        answer_with-InGateway world g attempt (to_dict ms []) g.cache h
    answer_json-InGateway world g attempt (some null) h = h
    answer_json-InGateway world g attempt (some (bool b)) h = h
    answer_json-InGateway world g attempt (some (number n)) h = h
    answer_json-InGateway world g attempt (some (str s)) h = h
    answer_json-InGateway world g attempt (some (array l)) h = h

    chat-InGateway :
        (world : World) (g : Gateway) (request : Request)
        → InGateway g
        → InGateway (chat_completions out debugging cfg world g request).0
    unfolding chat_completions
    chat-InGateway world g request h =
        answer_json-InGateway world g (parse_attempt_header request.attempt)
          (out.loads request.raw_body) h

    pub serve-InGateway :
        (rs : List (World × Request)) (g : Gateway)
        → InGateway g
        → InGateway (serve out debugging cfg rs g)
    unfolding serve
    serve-InGateway [] g h = h
    serve-InGateway ((world, request) ∷ rs) g h =
        serve-InGateway rs (chat_completions out debugging cfg world g request).0
          (chat-InGateway world g request h)

    count_request-spent :
        (n : ℕ) (g : Gateway) (c : Option Cache) → (count_request n g c).cost_usd ≡ g.cost_usd
    count_request-spent n g none = refl
    count_request-spent n g (some c) = ground arith

    count_request-health :
        (n : ℕ) (g : Gateway) (c : Option Cache)
        → (count_request n g c).backend_health ≡ g.backend_health
    count_request-health n g none = refl
    count_request-health n g (some c) = ground arith

    saving_on_exists :
        (backend : Option BackendConfig) (u : Option Usage)
        → read_usage j ≡ some u
        → (s : Option (String × ℕ)) × (saving_on backend j ≡ some s)
    saving_on_exists none u r = (none, refl)
    saving_on_exists (some b) u r =
        (elim (cost_of b.pricing u) [ none ↦ none | some n ↦ some (b.name, n) ], rw r refl)

    -- A saving can be priced, or is unknown, wherever the usage can be read.
    saving_exists :
        (o : Option String) (u : Option Usage)
        → read_usage j ≡ some u
        → (s : Option (String × ℕ)) × (record_cache_saving cfg o j ≡ some s)
    unfolding record_cache_saving
    saving_exists none u r = (none, refl)
    saving_exists (some name) u r = elim (Bool-cases (str_eq name "")) [
      | inl q ↦ (none, rw q refl)
      | inr q ↦
          let (s, e) = saving_on_exists (Dict.lookup name cfg.backends_by_name) u r in (s, rw q e)
    ]

    booked-Replays :
        (g : Gateway) (c : Cache) (e : CacheEntry) (saving : Option (String × ℕ))
        → e.response_status_code ≡ status
        → Replays status j g
            (booked out (maybe_emit_cache_summary cfg (with_cache c g)) key e j (some saving))
    booked-Replays g c e none same = record {
      reply = hit_reply out key e none j;
      answered = refl;
      same_status = same;
      same_content = refl;
      free = unfold Dict.lookup in refl;
      nothing_spent = count_request-spent cfg.cache.log_every_n (with_cache c g) (some c);
      no_backend_called = count_request-health cfg.cache.log_every_n (with_cache c g) (some c);
    }
    booked-Replays g c e (some (name, n)) same = record {
      reply = hit_reply out key e (some (name, n)) j;
      answered = refl;
      same_status = same;
      same_content = refl;
      free = unfold Dict.lookup in refl;
      nothing_spent = count_request-spent cfg.cache.log_every_n (with_cache c g) (some c);
      no_backend_called = count_request-health cfg.cache.log_every_n (with_cache c g) (some c);
    }

    hit-Replays :
        (g : Gateway) (c : Cache) (e : CacheEntry) (u : Option Usage)
        → RoundTrips out j
        → e.response_status_code ≡ status
        → e.response_body ≡ out.dumps j
        → read_usage j ≡ some u
        → Replays status j g (answer_hit out cfg (with_cache c g) key e)
    unfolding answer_hit
    hit-Replays g c e u t st bo r =
        let (saving, s) = saving_exists e.original_backend_name u r in
        rw (bo, t.reads_back, s) (booked-Replays g c e saving st)

    -- A lookup of the key finds the row.
    get-hit :
        (sqlite : Sqlite) (c : Cache) (h : Holds out key status j c.rows)
        → sqlite.reads ≡ true
        → (c' : Cache) × (Cache.get sqlite key c ≡ (c', some (bumped h.entry)))
    unfolding Cache.get
    get-hit sqlite c h e = ((found sqlite.bumps key c (some h.entry)).0, rw (e, h.at) refl)

    pub replay-Replays :
        (world : World) (g : Gateway) (request : Request) (ms : Fields)
        → RoundTrips out j
        → world.sqlite.reads ≡ true
        → out.loads request.raw_body ≡ some (object ms)
        → key_of out cfg (to_dict ms []) ≡ key
        → InGateway g
        → Replays status j g (chat_completions out debugging cfg world g request)
    unfolding InGateway InCache
    replay-Replays world g request ms t e l k h = elim (Option-cases g.cache) [
      | inl absent ↦ absurd (subst (InCache out key status j) absent h)
      | inr (c, present) ↦
          let holds : Holds out key status j c.rows = subst (InCache out key status j) present h in
          let (c', hit) = get-hit world.sqlite c holds e in
          let attempt = parse_attempt_header request.attempt in
          let answer : chat_completions out debugging cfg world g request
              ≡ answer_hit out cfg (with_cache c' g) key (bumped holds.entry) =
            chat_in_replay world g c request ms present l
            ∙ ap
                (λ x.
                  answer_lookup out debugging cfg world g x attempt (to_dict ms [])
                    (Cache.get world.sqlite x c))
                k
            ∙ ap (answer_lookup out debugging cfg world g key attempt (to_dict ms [])) hit in
          subst (Replays status j g) (sym answer) (
            hit-Replays g c' (bumped holds.entry) holds.usage t holds.same_status holds.same_body
              holds.readable)
    ]
