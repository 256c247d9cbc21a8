-- ===== src/LlmGateway/RequestTests.antt =====
-- Keys, parameters, prices, tries and a config file: the theorems at concrete inputs.
use dev_harness.Base.{ℕ, ◌≡◌, refl, ◌↔◌, true, Option, none, some, [], ◌∷◌, String, ℤ, pos}
use dev_harness.Base.Dict
use dev_harness.Base.Dict.{Dict}
use dev_harness.Base.Text.{Text, codes, text_eq→ne, drop_while, lower}
use dev_harness.Base.Json.{Json, str, array, object, nil, cons, no_fields, member}
use dev_harness.LlmGateway.Config as Config
use dev_harness.LlmGateway.Config.{Value, parse_policy, check_entries, check_order}
use dev_harness.LlmGateway.Config.Backends.{
  BackendConfig, GatewayConfig, Auth, entra, chat, reasoning_profile, load_config, parse_backend,
  parse_cache, parse_pricing, resolve_api_key, has_twice, no_cache,
}
use dev_harness.LlmGateway.Config.Loading.{Fit, load_config-Fit}
use dev_harness.LlmGateway.Forward.{
  Post, transport_error, Minted, token, url_of, sent_body, forward, tries, fail,
}
use dev_harness.LlmGateway.Forward.Bodies.{arrives, sent_body-arrives}
use dev_harness.LlmGateway.Forward.Tries.{Runs, forward-Runs}
use dev_harness.LlmGateway.Keying.{derive_key, key_payload, picked, tool_key, normalize_tools}
use dev_harness.LlmGateway.Keying.Collisions.{SameRequest, derive_key-SameRequest}
use dev_harness.LlmGateway.Keying.Tools.{swap, normalize_tools-Reordered}

abbrev show : Json → Text
show j = []

-- Two bodies that differ in a field that no key reads.
abbrev body : Dict Json
body = ("model", str (codes "m")) ∷ ("temperature", Json.number 0) ∷ []

abbrev streamed : Dict Json
streamed = ("model", str (codes "m")) ∷ ("temperature", Json.number 0) ∷ ("n", Json.number 2) ∷ []

abbrev digest : Json → String
digest j = "key"

derive_key-SameRequest_example :
    (derive_key digest none show body ≡ derive_key digest none show streamed)
    ↔ SameRequest none show body streamed
derive_key-SameRequest_example =
    derive_key-SameRequest none show body streamed digest
      (λ e. unfold key_payload picked Dict.lookup in refl)

abbrev tool : String → Json
tool name =
    object (member "function" (object (member "name" (str (codes name)) no_fields)) no_fields)

normalize_tools-Reordered_example :
    normalize_tools show (some (array (cons (tool "read") (cons (tool "grep") nil))))
    ≡ normalize_tools show (some (array (cons (tool "grep") (cons (tool "read") nil))))
normalize_tools-Reordered_example = normalize_tools-Reordered show (
    swap (tool "read") (tool "grep") nil
      (unfold tool_key in text_eq→ne (codes "read") (codes "grep") refl))

abbrev keyless : BackendConfig
keyless = record {
  name = "azure";
  base_url = codes "http://a";
  model = "gpt";
  api_key = [];
  request_timeout = pos 600;
  auth = entra;
  entra_scope = codes "https://cognitiveservices.azure.com/.default";
  entra_client_id = [];
  gcp_scope = codes "https://www.googleapis.com/auth/cloud-platform";
  param_profile = chat;
  reasoning_effort = [];
  pricing = none;
}

-- A deployment that thinks, and no temperature.
abbrev thinking : BackendConfig
thinking = record keyless { param_profile = reasoning_profile; reasoning_effort = codes "low" }

sent_body-arrives_example :
    Dict.lookup "temperature" (sent_body thinking body) ≡ arrives thinking body "temperature"
sent_body-arrives_example = sent_body-arrives thinking body "temperature"

-- A provider that mints a token, and a backend that cannot be reached.
abbrev mint : Auth → Minted
mint auth = token (codes "t")

abbrev post : Text → Text → Dict Json → ℕ → Post
post url bearer sent i = transport_error (codes "no route")

abbrev loads : Text → Option Json
loads bytes = none

abbrev same_text : Text → Text
same_text bytes = bytes

abbrev reason : ℕ → Text
reason status = codes "upstream"

forward-Runs_example :
    Runs loads same_text reason mint keyless
      (λ bearer. post (url_of keyless) bearer (sent_body keyless body))
      (forward loads same_text reason mint post keyless body)
forward-Runs_example = forward-Runs loads same_text reason mint post keyless body

-- Three tries, after sleeps of one and two seconds.
gave_up :
    forward loads same_text reason mint post keyless body
    ≡ record { outcome = fail 502 [] [] (codes "no route"); slept = 1 ∷ 2 ∷ [] }
unfolding forward tries
gave_up = refl

abbrev raw : Value
raw = Config.mapping (
    Config.field "backends"
      (Config.sequence (
        Config.cons
          (Config.mapping (
            Config.field "name" (Config.str "azure") (
              Config.field "base_url" (Config.str "http://a/") (
                Config.field "model" (Config.str "gpt")
                  (Config.field "auth" (Config.str "Entra") Config.empty)))))
          Config.nil))
      (Config.field "inference_policy"
        (Config.mapping (
          Config.field "order" (Config.sequence (Config.cons (Config.str "azure") Config.nil))
            Config.empty))
        Config.empty))

abbrev float : Value → Option ℤ
float v = some (pos 600)

abbrev shown : Value → Text
shown v = []

abbrev config : GatewayConfig
config = record {
  backends = keyless ∷ [];
  policy = record { order = "azure" ∷ []; advance_on_fix_failure = true };
  backends_by_name = ("azure", keyless) ∷ [];
  cache = no_cache;
}

loaded : load_config [] float float shown raw ≡ some config
unfolding load_config parse_backend parse_cache parse_pricing resolve_api_key has_twice lower
    Dict.insert drop_while parse_policy check_order check_entries
loaded = refl

load_config-Fit_example : Fit config
load_config-Fit_example = load_config-Fit [] float float shown raw config loaded
