-- ===== src/LlmGateway/Server/Recording.antt =====
-- In recording mode `chat_completions` of llm_gateway/app.py caches every success.
use dev_harness.Base.{
  ℕ, ◌<◌, ◌≤◌, ◌≡◌, refl, sym, subst, Bool, true, Option, none, some, [], ◌∷◌, String, some-eq,
  arith,
}
use dev_harness.Base.Dict.{Dict}
use dev_harness.Base.Text.{Text}
use dev_harness.Base.Json.{Json, Fields, object}
use dev_harness.LlmGateway.Cache.{Cache}
use dev_harness.LlmGateway.Config.Backends.{BackendConfig, GatewayConfig, recording}
use dev_harness.LlmGateway.Costs.{read_usage}
use dev_harness.LlmGateway.Forward.{Outcome, ok, fail}
use dev_harness.LlmGateway.Forward.Tries.{RightKind, forward-RightKind}
use dev_harness.LlmGateway.Policy.{Selection, parse_attempt_header}
use dev_harness.LlmGateway.Server.{
  Outside, World, Request, Reply, Gateway, mark_backend_ok, maybe_emit_cache_summary, record_spend,
}
use dev_harness.LlmGateway.Server.Answers.{
  records_in, stored, cost_header, add_spend, response_headers, replied, spent, failure_reply,
  answer_outcome, forwarded, answer_upstream,
}
use dev_harness.LlmGateway.Server.Chat.{key_of, chat_completions, to_dict}
use dev_harness.LlmGateway.Server.Stored.{RoundTrips, InCache, put_bytes-InCache, usage_of_spend}
use dev_harness.LlmGateway.Server.Successes.{summary-cache}
use dev_harness.Worker.Usage.{Usage}

module _ (out : Outside) (cfg : GatewayConfig) where
  -- A success that json reads back is in the cache.
  unfoldable pub Recorded : String → Gateway × Option Reply → Type 0
  Recorded key (g, answer) =
      (r : Reply)
      → answer ≡ some r
      → r.status < 400
      → RoundTrips out r.content
      → InCache out key r.status r.content g.cache

  stored-InCache :
      (world : World) (key : String) (status : ℕ) (j : Json) (u : Option Usage) (backend : String)
      (cache : Option Cache) (c : Cache) (headers : Dict Text)
      → RoundTrips out j
      → records_in cfg.cache.mode ≡ true
      → world.sqlite.writes ≡ true
      → cache ≡ some c
      → read_usage j ≡ some u
      → InCache out key status j
          (stored out world cfg.cache.mode key status j backend cache headers).0
  stored-InCache world key status j u backend none c headers t m w e r = cc
  stored-InCache world key status j u backend (some c') c headers t m w e r =
      rw m (put_bytes-InCache out world key (out.dumps j) status j u backend c' headers t refl w r)

  replied-Recorded :
      (g : Gateway) (key : String) (status : ℕ) (j : Json) (st : Option Cache × Dict Text)
      → (RoundTrips out j → InCache out key status j st.0)
      → Recorded key (replied cfg g status j st)
  unfolding Recorded
  replied-Recorded g key status j (cache, headers) h r e lt t =
      let answer : Reply = record { status = status; headers = headers; content = j } in
      let same : answer ≡ r = some-eq answer r e in
      let back : RoundTrips out j = subst (λ (x : Reply). RoundTrips out x.content) (sym same) t in
      subst
        (λ (x : Reply).
          InCache out key x.status x.content
            (maybe_emit_cache_summary cfg (record g { cache = cache })).cache)
        same
        (subst (InCache out key status j) (sym (summary-cache cfg (record g { cache = cache })))
          (h back))

  module _ (world : World) (m : records_in cfg.cache.mode ≡ true)
      (w : world.sqlite.writes ≡ true) where
    spent-Recorded :
        (g : Gateway) (c : Cache) (key : String) (backend : BackendConfig) (status : ℕ)
        (headers : Dict Text) (j : Json) (spend : Option (Option ℕ))
        → g.cache ≡ some c
        → record_spend backend j ≡ spend
        → Recorded key (spent out world cfg g key backend status headers j spend)
    unfolding Recorded
    spent-Recorded g c key backend status headers j none e s = λ r h lt t. cc
    spent-Recorded g c key backend status headers j (some n) e s =
        let (u, readable) = usage_of_spend out backend j n s in
        replied-Recorded (add_spend backend n g) key status j
          (stored out world cfg.cache.mode key status j backend.name g.cache
            (cost_header out n headers))
          (λ t.
            stored-InCache world key status j u backend.name g.cache c (cost_header out n headers) t
              m w e readable)

    failure-status :
        (backend : BackendConfig) (status : ℕ) (headers : Dict Text) (bytes err : Text)
        → 400 ≤ status
        → 400 ≤ (failure_reply out backend status headers bytes err).status
    failure-status backend status headers [] err h = omega arith
    failure-status backend status headers (b ∷ bytes) err h = h

    answer_outcome-Recorded :
        (g : Gateway) (c : Cache) (key : String) (backend : BackendConfig) (o : Outcome)
        → g.cache ≡ some c
        → RightKind o
        → Recorded key (answer_outcome out world cfg g key backend o)
    unfolding answer_outcome RightKind Recorded
    answer_outcome-Recorded g c key backend (ok status headers j) e k r h lt t =
        spent-Recorded (mark_backend_ok world.now backend.name g) c key backend status
          (response_headers backend headers) j (record_spend backend j) e refl r h lt t
    answer_outcome-Recorded g c key backend (fail status headers bytes err) e k r h lt t =
        let answer = failure_reply out backend status headers bytes err in
        let same : answer ≡ r = some-eq answer r h in
        let high : 400 ≤ r.status =
          subst (λ (x : Reply). 400 ≤ x.status) same
            (failure-status backend status headers bytes err k) in
        absurd (omega (arith, high, lt))

    forwarded-Recorded :
        (g : Gateway) (c : Cache) (key : String) (body : Dict Json)
        (sel : Option (Selection BackendConfig))
        → g.cache ≡ some c
        → Recorded key (forwarded out world cfg g key body sel)
    unfolding Recorded
    forwarded-Recorded g c key body none e = λ r h lt t. cc
    forwarded-Recorded g c key body (some sel) e =
        answer_outcome-Recorded g c key sel.backend _ e (
          forward-RightKind out.loads out.decode out.upstream world.mint world.post sel.backend
            body)

    answer_upstream-Recorded :
        (g : Gateway) (c : Cache) (key : String) (attempt : ℕ) (body : Dict Json)
        → g.cache ≡ some c
        → Recorded key (answer_upstream out world cfg g key attempt body)
    unfolding answer_upstream
    answer_upstream-Recorded g c key attempt body e = forwarded-Recorded g c key body _ e

  -- In recording mode every request goes to a backend.
  chat_in_recording :
      (debugging : Bool) (world : World) (g : Gateway) (c : Cache) (request : Request) (ms : Fields)
      → cfg.cache.mode ≡ recording
      → g.cache ≡ some c
      → out.loads request.raw_body ≡ some (object ms)
      → chat_completions out debugging cfg world g request
        ≡ answer_upstream out world cfg g
            (key_of out cfg (to_dict ms []))
            (parse_attempt_header request.attempt)
            (to_dict ms [])
  unfolding chat_completions
  chat_in_recording debugging world g c request ms m e l = rw (l, e, m) refl

  pub recording-Recorded :
      (debugging : Bool) (world : World) (g : Gateway) (c : Cache) (request : Request) (ms : Fields)
      → cfg.cache.mode ≡ recording
      → world.sqlite.writes ≡ true
      → g.cache ≡ some c
      → out.loads request.raw_body ≡ some (object ms)
      → Recorded
          (key_of out cfg (to_dict ms []))
          (chat_completions out debugging cfg world g request)
  recording-Recorded debugging world g c request ms m w e l =
      subst (Recorded (key_of out cfg (to_dict ms [])))
        (sym (chat_in_recording debugging world g c request ms m e l))
        (answer_upstream-Recorded world (rw m refl) w g c (key_of out cfg (to_dict ms []))
          (parse_attempt_header request.attempt) (to_dict ms []) e)
