-- ===== src/LlmGateway/Config/Backends.antt =====
-- The backends and the cache of a gateway config (llm_gateway/config.py). A price is a whole number of
-- a unit of money, per million tokens. `float` and `int` of a value, where `none` is a `TypeError` or a
-- `ValueError`, `str` of a value that is no string, and the environment are arguments.
use dev_harness.Base.{
  ℕ, ◌==◌, Bool, true, false, not, ◌&&◌, ◌||◌, Option, none, some, List, [], ◌∷◌, String, ℤ, pos,
  negsuc, clip, is_some, if◌then◌else◌, ◌>>=◌, any, map, str_eq,
}
use mathlib.Core.List.{reverse}
use dev_harness.Base.Dict
use dev_harness.Base.Dict.{Dict}
use mathlib.Core.Option
use dev_harness.Base.Text.{Text, codes, text_eq, drop_while, lower}
use dev_harness.LlmGateway.Config.{
  Value, Values, Fields, null, int, str, sequence, mapping, nil, cons, get, truth,
  InferencePolicyConfig, parse_policy,
}

pub record PricingConfig : Type 0 where
  pub input_per_1m : ℕ
  pub output_per_1m : ℕ
  pub cached_input_per_1m : Option ℕ

-- `_AUTH_MODES` and `_PARAM_PROFILES`
pub data Auth : Type 0 where
  api_key_auth entra gcp : Auth

pub data Profile : Type 0 where
  chat reasoning_profile : Profile

pub record BackendConfig : Type 0 where
  pub name : String
  pub base_url : Text
  pub model : String
  pub api_key : Text
  pub request_timeout : ℤ
  pub auth : Auth
  pub entra_scope : Text
  pub entra_client_id : Text
  pub gcp_scope : Text
  pub param_profile : Profile
  pub reasoning_effort : Text
  pub pricing : Option PricingConfig

-- `_CACHE_MODES`
pub data Mode : Type 0 where
  disabled recording replay cache_mode : Mode

pub record CacheConfig : Type 0 where
  pub enabled : Bool
  pub mode : Mode
  pub db_path : String
  pub replay_with_latency : Bool
  pub log_every_n : ℕ
  pub normalize_content : Bool

pub record GatewayConfig : Type 0 where
  pub backends : List BackendConfig
  pub policy : InferencePolicyConfig
  pub backends_by_name : Dict BackendConfig
  pub cache : CacheConfig

-- `isinstance(v, str) and v`
abbrev pub non_empty : Option Value → Option String
non_empty none = none
non_empty (some (str s)) = if str_eq s "" then none else some s
non_empty (some _) = none

abbrev pub text_or : (Value → Text) → Text → Option Value → Text
text_or show d none = d
text_or show d (some (str s)) = codes s
text_or show d (some v) = show v

-- `str(raw.get(key, "") or "")`
abbrev pub text_or_empty : (Value → Text) → Option Value → Text
text_or_empty show none = []
text_or_empty show (some (str s)) = codes s
text_or_empty show (some v) = if truth v then show v else []

abbrev pub auth_of : Text → Option Auth
auth_of s =
    if text_eq s (codes "api_key")
    then some api_key_auth
    else if text_eq s (codes "entra")
    then some entra
    else if text_eq s (codes "gcp")
    then some gcp
    else none

abbrev pub profile_of : Text → Option Profile
profile_of s =
    if text_eq s (codes "chat")
    then some chat
    else if text_eq s (codes "reasoning")
    then some reasoning_profile
    else none

abbrev mode_of : Text → Option Mode
mode_of s =
    if text_eq s (codes "disabled")
    then some disabled
    else if text_eq s (codes "record")
    then some recording
    else if text_eq s (codes "replay")
    then some replay
    else if text_eq s (codes "cache")
    then some cache_mode
    else none

-- `auth in _KEYLESS_AUTH_MODES`
abbrev pub is_keyless : Auth → Bool
is_keyless api_key_auth = false
is_keyless entra = true
is_keyless gcp = true

abbrev pub is_reasoning : Profile → Bool
is_reasoning chat = false
is_reasoning reasoning_profile = true

abbrev is_disabled : Mode → Bool
is_disabled disabled = true
is_disabled _ = false

-- `effort in _REASONING_EFFORTS`
abbrev pub is_effort : Text → Bool
is_effort s = any (λ e. text_eq s (codes e)) ("" ∷ "minimal" ∷ "low" ∷ "medium" ∷ "high" ∷ [])

-- A check that raises if the test holds, and what comes after it.
infix 1 refuse_if◌otherwise◌
abbrev pub refuse_if◌otherwise◌ {ℓ} : {A : Type ℓ} → Bool → Option A → Option A
refuse_if true otherwise rest = none
refuse_if false otherwise rest = rest

abbrev pub key_in : String → Fields → Bool
key_in key raw = is_some (get key raw)

-- The key that the environment holds under the name of `api_key_env`.
abbrev pub from_env : Dict String → Option Value → Option Text
from_env env setting = do
  env_name ← non_empty setting
  value ← Dict.lookup env_name env
  refuse_if str_eq value "" otherwise some (codes value)

-- `_resolve_api_key`
unfoldable pub resolve_api_key : Dict String → Fields → Option Text
resolve_api_key env raw =
    refuse_if key_in "api_key" raw && key_in "api_key_env" raw
    otherwise if key_in "api_key" raw
    then Option.map codes (non_empty (get "api_key" raw))
    else if key_in "api_key_env" raw
    then from_env env (get "api_key_env" raw)
    else some (codes "EMPTY")

abbrev pub is_negative : ℤ → Bool
is_negative (pos n) = false
is_negative (negsuc n) = true

-- `_num`
abbrev num : (Value → Option ℤ) → Option Value → Option (Option ℕ)
num float none = some none
num float (some v) = do x ← float v; refuse_if is_negative x otherwise some (some (clip x))

abbrev or_zero : Option ℕ → ℕ
or_zero none = 0
or_zero (some n) = n

-- `_parse_pricing`
unfoldable pub parse_pricing : (Value → Option ℤ) → Option Value → Option (Option PricingConfig)
parse_pricing float none = some none
parse_pricing float (some null) = some none
parse_pricing float (some (mapping raw)) = do
  input ← num float (get "input_per_1m" raw)
  output ← num float (get "output_per_1m" raw)
  cached ← num float (get "cached_input_per_1m" raw)
  some (
      some (record {
        input_per_1m = or_zero input;
        output_per_1m = or_zero output;
        cached_input_per_1m = cached;
      }))
parse_pricing float (some _) = none

abbrev pub value_or : Value → Option Value → Value
value_or d none = d
value_or d (some v) = v

-- `base_url.rstrip("/")`
abbrev pub without_slash : Text → Text
without_slash s = reverse (drop_while (λ c. c == 47) (reverse s))

abbrev entra_scope_default : Text
entra_scope_default = codes "https://cognitiveservices.azure.com/.default"

abbrev gcp_scope_default : Text
gcp_scope_default = codes "https://www.googleapis.com/auth/cloud-platform"

-- The checks of `auth`
abbrev pub auth_for : Fields → Text → Option Auth
auth_for raw text = do
  auth ← auth_of text
  refuse_if is_keyless auth && (key_in "api_key" raw || key_in "api_key_env" raw)
      otherwise some auth

-- The two checks of `reasoning_effort`
abbrev pub effort_for : Profile → Text → Option Text
effort_for profile effort =
    refuse_if not (is_effort effort)
    otherwise refuse_if not (text_eq effort []) && not (is_reasoning profile)
    otherwise some effort

-- `CacheConfig()`
abbrev pub no_cache : CacheConfig
no_cache = record {
  enabled = false;
  mode = disabled;
  db_path = "";
  replay_with_latency = false;
  log_every_n = 100;
  normalize_content = false;
}

-- The path of an enabled cache is no empty text; another mode does not read it.
abbrev pub path_for : Mode → Option Value → Option String
path_for disabled v = some ""
path_for recording v = non_empty v
path_for replay v = non_empty v
path_for cache_mode v = non_empty v

abbrev pub flag : Option Value → Bool
flag none = false
flag (some v) = truth v

-- A list that is not empty.
abbrev pub list_of : Option Value → Option Values
list_of none = none
list_of (some (sequence (cons v vs))) = some (cons v vs)
list_of (some _) = none

-- `len(names) != len(set(names))`
unfoldable pub has_twice : List String → Bool
has_twice [] = false
has_twice (n ∷ ns) = any (str_eq n) ns || has_twice ns

abbrev pub keyed : List BackendConfig → Dict BackendConfig → Dict BackendConfig
keyed [] d = d
keyed (b ∷ bs) d = keyed bs (Dict.insert b.name b d)

-- `{b.name: b for b in backends}`
abbrev pub by_name : List BackendConfig → Dict BackendConfig
by_name bs = keyed bs []

abbrev pub credential : Dict String → Fields → Auth → Option Text
credential env raw auth = if is_keyless auth then some [] else resolve_api_key env raw

module _ (env : Dict String) (float to_int : Value → Option ℤ) (show : Value → Text) where
  -- `_parse_backend`
  unfoldable pub parse_backend : Value → Option BackendConfig
  parse_backend (mapping raw) = do
    name ← non_empty (get "name" raw)
    base_url ← non_empty (get "base_url" raw)
    model ← non_empty (get "model" raw)
    timeout ← float (value_or (int (pos 600)) (get "request_timeout" raw))
    auth ← auth_for raw (lower (text_or show (codes "api_key") (get "auth" raw)))
    profile ← profile_of (lower (text_or show (codes "chat") (get "param_profile" raw)))
    effort ← effort_for profile (lower (text_or show [] (get "reasoning_effort" raw)))
    api_key ← credential env raw auth
    pricing ← parse_pricing float (get "pricing" raw)
    some (record {
      name = name;
      base_url = without_slash (codes base_url);
      model = model;
      api_key = api_key;
      request_timeout = timeout;
      auth = auth;
      entra_scope = text_or show entra_scope_default (get "entra_scope" raw);
      entra_client_id = text_or_empty show (get "entra_client_id" raw);
      gcp_scope = text_or show gcp_scope_default (get "gcp_scope" raw);
      param_profile = profile;
      reasoning_effort = effort;
      pricing = pricing;
    })
  parse_backend _ = none

  abbrev pub parse_backends : Values → Option (List BackendConfig)
  parse_backends nil = some []
  parse_backends (cons v vs) =
      let rest = parse_backends vs in do b ← parse_backend v; bs ← rest; some (b ∷ bs)

  -- `_parse_cache`
  unfoldable pub parse_cache : Option Value → Option CacheConfig
  parse_cache none = some no_cache
  parse_cache (some null) = some no_cache
  parse_cache (some (mapping raw)) = do
    mode ← mode_of (lower (text_or show (codes "disabled") (get "mode" raw)))
    db_path ← path_for mode (get "db_path" raw)
    log_every_n ← to_int (value_or (int (pos 100)) (get "log_every_n" raw))
    refuse_if is_negative log_every_n
        otherwise some (record {
          enabled = not (is_disabled mode);
          mode = mode;
          db_path = db_path;
          replay_with_latency = flag (get "replay_with_latency" raw);
          log_every_n = clip log_every_n;
          normalize_content = flag (get "normalize_content" raw);
        })
  parse_cache (some _) = none

  -- `load_config`, from the parsed file on
  unfoldable pub load_config : Value → Option GatewayConfig
  load_config (mapping data_fields) = do
    raw_backends ← list_of (get "backends" data_fields)
    backends ← parse_backends raw_backends
    let names = map (λ (b : BackendConfig). b.name) backends
    refuse_if has_twice names otherwise (do
      policy ← parse_policy (value_or null (get "inference_policy" data_fields)) names
      cache ← parse_cache (get "cache" data_fields)
      some (record {
        backends = backends;
        policy = policy;
        backends_by_name = by_name backends;
        cache = cache;
      }))
  load_config _ = none
