-- ===== src/LlmGateway/Server/Chat.antt =====
-- `chat_completions` of llm_gateway/app.py.
use dev_harness.Base.{Bool, ℕ, Option, none, some, List, String, [], ◌∷◌, if◌then◌else◌}
use dev_harness.Base.Dict
use dev_harness.Base.Dict.{Dict}
use dev_harness.Base.Text.{Text, codes}
use dev_harness.Base.Json.{Json, Fields, str, object, no_fields, member}
use dev_harness.LlmGateway.Cache
use dev_harness.LlmGateway.Cache.{Cache, CacheEntry}
use dev_harness.LlmGateway.Config.Backends.{
  GatewayConfig, Mode, disabled, recording, replay, cache_mode,
}
use dev_harness.LlmGateway.Keying.{normalize_volatile_content, derive_key}
use dev_harness.LlmGateway.Policy.{parse_attempt_header}
use dev_harness.LlmGateway.Server.{
  Outside, World, Request, Reply, Gateway, maybe_emit_cache_summary,
}
use dev_harness.LlmGateway.Server.Answers.{looks_up, answer_hit, miss_reply, answer_upstream}

-- `dict` of what `json.loads` returned
abbrev pub to_dict : Fields → Dict Json → Dict Json
to_dict no_fields d = d
to_dict (member k j ms) d = to_dict ms (Dict.insert k j d)

-- An `HTTPException`
abbrev pub refusal : ℕ → String → Reply
refusal status detail = record {
  status = status;
  headers = [];
  content = object (member "detail" (str (codes detail)) no_fields);
}

-- The cache key of a body under the config
abbrev pub rewrite_of : Outside → GatewayConfig → Option (Text → Text)
rewrite_of out cfg =
    if cfg.cache.normalize_content
    then some (normalize_volatile_content out.sub out.patterns)
    else none

abbrev pub key_of : Outside → GatewayConfig → Dict Json → String
key_of out cfg body = derive_key out.digest (rewrite_of out cfg) out.show body

abbrev pub with_cache : Cache → Gateway → Gateway
with_cache c g = record g { cache = some c }

-- `debugging` tells that `CACHE_DEBUG_MISS_DUMP` is set.
module _ (out : Outside) (debugging : Bool) (cfg : GatewayConfig) where
  abbrev pub answer_miss : World → Gateway → String → ℕ → Dict Json → Mode → Gateway × Option Reply
  answer_miss world g key attempt body replay =
      (maybe_emit_cache_summary cfg g, some (miss_reply debugging key))
  answer_miss world g key attempt body cache_mode = answer_upstream out world cfg g key attempt body
  answer_miss world g key attempt body disabled = answer_upstream out world cfg g key attempt body
  answer_miss world g key attempt body recording = answer_upstream out world cfg g key attempt body

  abbrev pub answer_lookup :
      World → Gateway → String → ℕ → Dict Json → Cache × Option CacheEntry → Gateway × Option Reply
  answer_lookup world g key attempt body (c, some e) = answer_hit out cfg (with_cache c g) key e
  answer_lookup world g key attempt body (c, none) =
      answer_miss world (with_cache c g) key attempt body cfg.cache.mode

  abbrev pub answer_with : World → Gateway → ℕ → Dict Json → Option Cache → Gateway × Option Reply
  answer_with world g attempt body none = answer_upstream out world cfg g "" attempt body
  answer_with world g attempt body (some c) =
      if looks_up cfg.cache.mode
      then answer_lookup world g (key_of out cfg body) attempt body
          (Cache.get world.sqlite (key_of out cfg body) c)
      else answer_upstream out world cfg g (key_of out cfg body) attempt body

  abbrev pub answer_json : World → Gateway → ℕ → Option Json → Gateway × Option Reply
  answer_json world g attempt none = (g, some (refusal 400 "request body is not valid JSON"))
  answer_json world g attempt (some (object ms)) =
      answer_with world g attempt (to_dict ms []) g.cache
  answer_json world g attempt (some _) =
      (g, some (refusal 400 "request body must be a JSON object"))

  -- `chat_completions`
  unfoldable pub chat_completions : World → Gateway → Request → Gateway × Option Reply
  chat_completions world g request =
      answer_json world g (parse_attempt_header request.attempt) (out.loads request.raw_body)

  -- Requests one after the other.
  unfoldable pub serve : List (World × Request) → Gateway → Gateway
  serve [] g = g
  serve ((world, request) ∷ rs) g = serve rs (chat_completions world g request).0
