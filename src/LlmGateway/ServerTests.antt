-- ===== src/LlmGateway/ServerTests.antt =====
-- A small gateway: the theorems of the server at inputs where their conditions hold.
use dev_harness.Base.{
  inr, ◌≡◌, refl, ap, true, false, Option, none, some, [], ◌∷◌, pos, ◌==◌, arith, if◌then◌else◌,
}
use dev_harness.Base.Dict
use dev_harness.Base.Dict.{Dict}
use dev_harness.Base.Text.{Text, codes}
use dev_harness.Base.Json.{
  Json, Fields, bool, number, str, array, object, nil, cons, no_fields, member,
}
use dev_harness.LlmGateway.Cache
use dev_harness.LlmGateway.Cache.{Cache, CacheEntry, Sqlite}
use dev_harness.LlmGateway.Config.Backends.{
  BackendConfig, GatewayConfig, api_key_auth, chat, Mode, recording, replay, cache_mode,
}
use dev_harness.LlmGateway.Costs.{read_usage, cost_usd}
use dev_harness.LlmGateway.Forward.{response, refused, tries, forward}
use dev_harness.LlmGateway.Keying.{picked, key_payload}
use dev_harness.LlmGateway.Keying.Collisions.{SameRequest}
use dev_harness.LlmGateway.Keying.Messages.{both_end, skip_left, same, other_role}
use dev_harness.LlmGateway.Keying.Params.{normalize_params-SameParams}
use dev_harness.LlmGateway.Params.{apply_param_profile}
use dev_harness.LlmGateway.Policy.{select, parse_attempt_header}
use dev_harness.LlmGateway.Server.{Outside, World, Request, Reply, Gateway, record_spend}
use dev_harness.LlmGateway.Server.Answers.{answer_outcome, answer_upstream}
use dev_harness.LlmGateway.Server.Chat.{chat_completions, serve, to_dict, rewrite_of}
use dev_harness.LlmGateway.Server.Replay.{Replays}
use dev_harness.LlmGateway.Server.SameAnswers.{record_then_replay}
use dev_harness.LlmGateway.Server.Successes.{Successes, serve-Successes}
use dev_harness.Tools.CacheTransfer.{table, copy_rows, export, import_, import_dry, import_rows}
use dev_harness.Tools.CacheTransfer.Merging.{Merges, import_-Merges}
use dev_harness.Tools.CacheTransfer.Shipping.{shipped_then_replay}
use dev_harness.Worker.Usage.{extract_usage, fold_reasoning}

abbrev backend : BackendConfig
backend = record {
  name = "azure";
  base_url = codes "http://a";
  model = "gpt";
  api_key = codes "k";
  request_timeout = pos 600;
  auth = api_key_auth;
  entra_scope = [];
  entra_client_id = [];
  gcp_scope = [];
  param_profile = chat;
  reasoning_effort = [];
  pricing = some (record { input_per_1m = 2; output_per_1m = 8; cached_input_per_1m = none });
}

abbrev config : Mode → GatewayConfig
config mode = record {
  backends = backend ∷ [];
  policy = record { order = "azure" ∷ []; advance_on_fix_failure = true };
  backends_by_name = ("azure", backend) ∷ [];
  cache = record {
    enabled = true;
    mode = mode;
    db_path = "c.db";
    replay_with_latency = false;
    log_every_n = 1;
    normalize_content = false;
  };
}

abbrev user_message : Fields
user_message = member "role" (str (codes "user")) (member "content" (str (codes "hi")) no_fields)

abbrev assistant_message : Fields
assistant_message =
    member "role" (str (codes "assistant")) (member "content" (str (codes "ho")) no_fields)

abbrev first_fields : Fields
first_fields =
    member "model" (str (codes "any"))
      (member "messages" (array (cons (object user_message) nil)) no_fields)

abbrev second_fields : Fields
second_fields = member "model" (str (codes "any")) (
    member "messages" (array (cons (object assistant_message) (cons (object user_message) nil)))
      (member "stream" (bool false) no_fields))

abbrev answer : Json
answer = object (
    member "usage"
      (object
        (member "prompt_tokens" (number 10) (member "completion_tokens" (number 3) no_fields)))
      no_fields)

abbrev loads : Text → Option Json
loads [] = none
loads (c ∷ s) =
    if c == 1
    then some (object first_fields)
    else if c == 2
    then some (object second_fields)
    else if c == 9
    then some answer
    else none

abbrev outside : Outside
outside = record {
  loads = loads;
  dumps = λ j. 9 ∷ [];
  decode = λ s. s;
  digest = λ j. "key";
  show = λ j. [];
  sub = λ i replacement s. s;
  patterns = [];
  upstream = λ status. codes "upstream";
  money = λ n. n ∷ [];
  unreachable = λ name err. err;
}

-- The first try is answered by 503, the next by 200.
abbrev world : World
world = record {
  now = 7;
  wallclock_ms = 5;
  sqlite = record { reads = true; bumps = true; writes = true };
  mint = λ a. refused [];
  post = λ url bearer body i. response (if i == 0 then 503 else 200) [] (9 ∷ []);
}

abbrev fresh : Gateway
fresh = record {
  cache =
      some (record { rows = []; stats = record { hits = 0; misses = 0; records = 0; errors = 0 } });
  backend_health = [];
  cache_request_count = 0;
  cost_usd = [];
  cost_saved_usd = [];
}

abbrev first_request : Request
first_request = record { attempt = none; raw_body = 1 ∷ [] }

abbrev second_request : Request
second_request = record { attempt = none; raw_body = 2 ∷ [] }

abbrev row : CacheEntry
row = record {
  response_body = 9 ∷ [];
  response_status_code = 200;
  original_wallclock_ms = 5;
  original_backend_name = some "azure";
  recorded_at_ms = 7;
  hit_count = 0;
}

abbrev one_row : Cache
one_row = record {
  rows = ("key", row) ∷ [];
  stats = record { hits = 0; misses = 0; records = 1; errors = 0 };
}

-- After the first request: 10 prompt tokens at 2 and 3 more at 8.
abbrev after_first : Gateway
after_first = record {
  cache = some one_row;
  backend_health = ("azure", record { last_ok_ts = some 7; last_err = none }) ∷ [];
  cache_request_count = 1;
  cost_usd = ("azure", 44) ∷ [];
  cost_saved_usd = [];
}

abbrev first_reply : Reply
first_reply = record {
  status = 200;
  headers =
      ("x-sdlcma-backend-name", codes "azure")
      ∷ ("x-sdlcma-cost-usd", 44 ∷ [])
      ∷ ("x-sdlcma-cache", codes "miss")
      ∷ ("x-sdlcma-cache-key", codes "key")
      ∷ [];
  content = answer;
}

first_recorded :
    chat_completions outside false (config recording) world fresh first_request
    ≡ (after_first, some first_reply)
unfolding chat_completions answer_upstream answer_outcome forward tries apply_param_profile select
    record_spend read_usage cost_usd Cache.put Dict.lookup Dict.insert Dict.erase key_payload
    parse_attempt_header extract_usage fold_reasoning
first_recorded = refl

recorded_reply :
    (chat_completions outside false (config recording) world fresh first_request).1
    ≡ some first_reply
recorded_reply = ap (λ (p : Gateway × Option Reply). p.1) first_recorded

recorded_cache :
    (chat_completions outside false (config recording) world fresh first_request).0.cache
    ≡ some one_row
recorded_cache = ap (λ (p : Gateway × Option Reply). p.0.cache) first_recorded

-- The second request has a message of the assistant and a field `stream` more.
asks_the_same :
    SameRequest
      (rewrite_of outside (config recording))
      outside.show
      (to_dict second_fields [])
      (to_dict first_fields [])
asks_the_same = record {
  model = unfold Dict.lookup Dict.insert in refl;
  messages =
      unfold Dict.lookup Dict.insert in
      skip_left (other_role refl)
        (same (record { external = refl; role = refl; content = refl; name = refl }) both_end);
  tools = unfold Dict.lookup Dict.insert in refl;
  params =
      (normalize_params-SameParams (to_dict second_fields []) (to_dict first_fields [])).0
        (unfold picked Dict.lookup Dict.insert in refl);
}

record_then_replay_example :
    Replays 200 answer
      (serve outside false (config replay) ((world, first_request) ∷ []) after_first)
      (chat_completions outside false
        (config replay)
        world
        (serve outside false (config replay) ((world, first_request) ∷ []) after_first)
        second_request)
record_then_replay_example =
    record_then_replay outside false (config recording) (config replay) world world fresh
      after_first
      (record { rows = []; stats = record { hits = 0; misses = 0; records = 0; errors = 0 } })
      one_row one_row first_request second_request first_fields second_fields first_reply
      ((world, first_request) ∷ []) (record { reads_back = refl; not_empty = refl }) refl refl refl
      refl recorded_reply (omega arith) recorded_cache refl refl refl refl refl refl asks_the_same

serve-Successes_example :
    Successes
      (serve outside false
        (config cache_mode)
        ((world, first_request) ∷ (world, second_request) ∷ [])
        fresh).cache
serve-Successes_example =
    serve-Successes outside (config cache_mode) false
      ((world, first_request) ∷ (world, second_request) ∷ []) fresh (unfold Successes in tt)

-- The cache is exported and merged into one that has a row of another key.
abbrev other_row : CacheEntry
other_row = record row { hit_count = 4 }

abbrev merged_cache : Cache
merged_cache = record {
  rows = ("other", other_row) ∷ ("key", row) ∷ [];
  stats = record { hits = 0; misses = 0; records = 0; errors = 0 };
}

abbrev other_machine : Gateway
other_machine = record fresh { cache = some merged_cache }

shipped_then_replay_example :
    Replays 200 answer
      (serve outside false (config replay) ((world, first_request) ∷ []) other_machine)
      (chat_completions outside false
        (config replay)
        world
        (serve outside false (config replay) ((world, first_request) ∷ []) other_machine)
        second_request)
shipped_then_replay_example =
    shipped_then_replay outside false false (config recording) (config replay) world world fresh
      other_machine
      (record { rows = []; stats = record { hits = 0; misses = 0; records = 0; errors = 0 } })
      one_row merged_cache first_request second_request first_fields second_fields first_reply
      ((world, first_request) ∷ []) (("other", other_row) ∷ []) (table (("key", row) ∷ []))
      (record { incoming = 1; new = 1; already_present = 0; applied = 1 })
      (record { reads_back = refl; not_empty = refl }) refl refl refl refl recorded_reply
      (omega arith) recorded_cache (unfold Dict.lookup in (refl, tt))
      (unfold export copy_rows Dict.insert in refl) (inr (unfold Dict.lookup in refl))
      (unfold import_ import_rows Dict.insert Dict.lookup in refl) refl refl refl refl refl
      asks_the_same

import_-Merges_example :
    Merges true
      (("key", row) ∷ [])
      (("key", other_row) ∷ [])
      (import_ (table (("key", other_row) ∷ [])) (table (("key", row) ∷ [])) true)
      (import_dry (table (("key", other_row) ∷ [])) (table (("key", row) ∷ [])))
import_-Merges_example =
    import_-Merges true (("key", row) ∷ []) (("key", other_row) ∷ [])
      (unfold Dict.lookup in (refl, tt))
