-- ===== src/LlmGateway/Forward.antt =====
-- `_forward` of llm_gateway/app.py: one request to one backend, with at most two more tries. The
-- answer to the try of a number is an argument, and `mint` is what the providers of tokens return.
pub mod Tries
pub mod Bodies
use dev_harness.Base.{
  ℕ, suc, ◌++◌, Bool, true, false, ◌||◌, Option, none, some, List, [], ◌∷◌, String, ltb, ◌==◌, any,
  if◌then◌else◌,
}
use dev_harness.Base.Dict
use dev_harness.Base.Dict.{Dict}
use dev_harness.Base.Text.{Text, codes}
use dev_harness.Base.Json.{Json, str, object, no_fields, member}
use dev_harness.LlmGateway.Config.Backends.{
  BackendConfig, Auth, api_key_auth, entra, gcp, without_slash,
}
use dev_harness.LlmGateway.Params.{apply_param_profile}

-- What `client.post` does: the transport fails, `httpx` fails otherwise, or a response comes.
pub data Post : Type 0 where
  transport_error other_error : Text → Post
  response : ℕ → Dict Text → Text → Post

pub data Minted : Type 0 where
  token refused : Text → Minted

pub data Outcome : Type 0 where
  ok : ℕ → Dict Text → Json → Outcome
  fail : ℕ → Dict Text → Text → Text → Outcome

-- An outcome, and the delays that were slept.
pub record Forwarded : Type 0 where
  pub outcome : Outcome
  pub slept : List ℕ

-- `_TRANSIENT_STATUS_CODES`
abbrev pub is_transient : ℕ → Bool
is_transient status = any (λ s. s == status) (429 ∷ 500 ∷ 502 ∷ 503 ∷ 504 ∷ [])

-- `_TRANSIENT_RETRY_DELAYS`, in seconds
abbrev pub delays : List ℕ
delays = 1 ∷ 2 ∷ []

abbrev or_502 : ℕ → ℕ
or_502 status = if status == 0 then 502 else status

-- `_bearer_for`
abbrev pub bearer_for : (Auth → Minted) → BackendConfig → Minted
bearer_for mint backend = elim backend.auth [
  | api_key_auth ↦ token backend.api_key
  | entra ↦ mint entra
  | gcp ↦ mint gcp
]

-- A credential that is refused ends the request.
abbrev pub with_bearer : Minted → (Text → Forwarded) → Forwarded
with_bearer (refused e) call = record { outcome = fail 502 [] [] e; slept = [] }
with_bearer (token bearer) call = call bearer

-- The body that is sent.
abbrev pub sent_body : BackendConfig → Dict Json → Dict Json
sent_body backend body =
    apply_param_profile backend.param_profile backend.reasoning_effort
      (Dict.insert "model" (str (codes backend.model)) body)

abbrev pub url_of : BackendConfig → Text
url_of backend = without_slash backend.base_url ++ codes "/chat/completions"

abbrev raw_or : (Text → Text) → Text → Option Json → Json
raw_or decode bytes none = object (member "raw" (str (decode bytes)) no_fields)
raw_or decode bytes (some j) = j

-- A try that settles ends the loop; else `d` seconds are slept before the rest of it.
abbrev pub after_try : Option Outcome → ℕ → Forwarded → Forwarded
after_try (some o) d rest = record { outcome = o; slept = [] }
after_try none d rest = record { outcome = rest.outcome; slept = d ∷ rest.slept }

abbrev pub last_try : Option Outcome → Outcome → Forwarded
last_try (some o) given_up = record { outcome = o; slept = [] }
last_try none given_up = record { outcome = given_up; slept = [] }

module _ (loads : Text → Option Json) (decode : Text → Text) (upstream : ℕ → Text) where
  -- `_safe_json(data, default={"raw": ...})`
  abbrev pub safe_json : Text → Json
  safe_json bytes = raw_or decode bytes (loads bytes)

  -- What ends the loop at once, or `none`.
  abbrev pub settled : Post → Option Outcome
  settled (transport_error e) = none
  settled (other_error e) = some (fail 502 [] [] e)
  settled (response status headers bytes) =
      if ltb status 400
      then some (ok status headers (safe_json bytes))
      else if is_transient status
      then none
      else some (fail status headers bytes (upstream status))

  -- What is returned after the last try.
  abbrev pub exhausted : Post → Outcome
  exhausted (transport_error e) = fail 502 [] [] e
  exhausted (other_error e) = fail 502 [] [] e
  exhausted (response status headers bytes) = fail (or_502 status) headers bytes (upstream status)

  -- The loop; the tries are counted from `i`.
  unfoldable pub tries : (ℕ → Post) → ℕ → List ℕ → Forwarded
  tries posts i [] = last_try (settled (posts i)) (exhausted (posts i))
  tries posts i (d ∷ ds) = after_try (settled (posts i)) d (tries posts (suc i) ds)

  -- `_forward`
  unfoldable pub forward :
      (Auth → Minted) → (Text → Text → Dict Json → ℕ → Post) → BackendConfig → Dict Json → Forwarded
  forward mint post backend body =
      with_bearer (bearer_for mint backend)
        (λ bearer. tries (post (url_of backend) bearer (sent_body backend body)) 0 delays)
