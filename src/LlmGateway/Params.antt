-- ===== src/LlmGateway/Params.antt =====
-- llm_gateway/params.py: the parameters that a backend refuses or calls by another name. The body is
-- the one that is sent, which `_forward` rewrites.
pub mod Profiles
use dev_harness.Base.{Bool, true, false, Option, none, some, List, [], ◌∷◌, String}
use dev_harness.Base.Dict
use dev_harness.Base.Dict.{Dict}
use dev_harness.Base.Text.{Text}
use dev_harness.Base.Json.{Json, str}
use dev_harness.LlmGateway.Config.Backends.{BackendConfig, Profile, chat, reasoning_profile}

-- `_REASONING_UNSUPPORTED`
abbrev pub unsupported : List String
unsupported = "temperature" ∷ "top_p" ∷ "presence_penalty" ∷ "frequency_penalty" ∷ []

abbrev pop_all : List String → Dict Json → Dict Json
pop_all [] body = body
pop_all (k ∷ ks) body = pop_all ks (Dict.erase k body)

abbrev pub add_missing : Option Json → String → Json → Dict Json → Dict Json
add_missing none key value body = Dict.insert key value body
add_missing (some v) key value body = body

-- `body.setdefault(key, value)`
abbrev pub setdefault : String → Json → Dict Json → Dict Json
setdefault key value body = add_missing (Dict.lookup key body) key value body

abbrev pub move : Option Json → String → String → Dict Json → Dict Json
move none old new body = body
move (some v) old new body = Dict.erase old (setdefault new v body)

-- One entry of `_REASONING_RENAMED`
abbrev pub rename : String → String → Dict Json → Dict Json
rename old new body = move (Dict.lookup old body) old new body

abbrev with_effort : Text → Dict Json → Dict Json
with_effort [] body = body
with_effort (c ∷ s) body = setdefault "reasoning_effort" (str (c ∷ s)) body

-- `apply_param_profile`
unfoldable pub apply_param_profile : Profile → Text → Dict Json → Dict Json
apply_param_profile chat effort body = body
apply_param_profile reasoning_profile effort body =
    with_effort effort (rename "max_tokens" "max_completion_tokens" (pop_all unsupported body))
