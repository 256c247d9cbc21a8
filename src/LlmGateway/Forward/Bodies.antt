-- ===== src/LlmGateway/Forward/Bodies.antt =====
-- The body that `_forward` of llm_gateway/app.py sends to a backend.
use dev_harness.Base.{
  ◌≡◌, refl, ◌∙◌, subst, Option, some, String, str_eq, eq_iff, Bool-cases, inl, inr, if◌then◌else◌,
}
use dev_harness.Base.Dict
use dev_harness.Base.Dict.{Dict, lookup-insert}
use dev_harness.Base.Text.{Text, codes}
use dev_harness.Base.Json.{Json, str}
use dev_harness.LlmGateway.Config.Backends.{BackendConfig, Profile, chat, reasoning_profile}
use dev_harness.LlmGateway.Params.{apply_param_profile}
use dev_harness.LlmGateway.Params.Profiles.{sent, apply_param_profile-sent}
use dev_harness.LlmGateway.Forward.{sent_body}

-- A chat backend gets every parameter.
abbrev of_profile : Profile → Text → Dict Json → String → Option Json
of_profile chat effort body k = Dict.lookup k body
of_profile reasoning_profile effort body k = sent effort body k

-- What a backend gets under a key of the worker's body.
pub arrives : BackendConfig → Dict Json → String → Option Json
arrives b body k =
    if str_eq "model" k
    then some (str (codes b.model))
    else of_profile b.param_profile b.reasoning_effort body k

sent-insert :
    (effort : Text) (v : Json) (body : Dict Json) (k : String)
    → sent effort (Dict.insert "model" v body) k
      ≡ (if str_eq "model" k then some v else sent effort body k)
unfolding sent
sent-insert effort v body k = elim (Bool-cases (str_eq "model" k)) [
  | inl e ↦
      subst
        (λ j.
          sent effort (Dict.insert "model" v body) j
          ≡ (if str_eq "model" j then some v else sent effort body j))
        ((eq_iff "model" k).0 e) (lookup-insert "model" "model" v body)
  | inr e ↦
      let here : Dict.lookup k (Dict.insert "model" v body) ≡ Dict.lookup k body =
        lookup-insert "model" k v body ∙ rw e refl in
      let tokens : Dict.lookup "max_tokens" (Dict.insert "model" v body)
          ≡ Dict.lookup "max_tokens" body =
        lookup-insert "model" "max_tokens" v body in
      rw (e, here, tokens) refl
]

rewritten :
    (p : Profile) (effort : Text) (v : Json) (body : Dict Json) (k : String)
    → Dict.lookup k (apply_param_profile p effort (Dict.insert "model" v body))
      ≡ (if str_eq "model" k then some v else of_profile p effort body k)
unfolding apply_param_profile
rewritten chat effort v body k = lookup-insert "model" k v body
rewritten reasoning_profile effort v body k =
    apply_param_profile-sent effort (Dict.insert "model" v body) k ∙ sent-insert effort v body k

-- The body that is sent has the model of the backend, whatever the worker named. A chat backend gets
-- every other key as the worker sent it. A reasoning backend gets none of the four refused parameters and
-- no max_tokens, whose value stands under max_completion_tokens unless the worker set that itself; it
-- gets the configured reasoning effort unless the worker set one, and all else as the worker sent it.
pub sent_body-arrives :
    (b : BackendConfig) (body : Dict Json) (k : String)
    → Dict.lookup k (sent_body b body) ≡ arrives b body k
unfolding arrives
sent_body-arrives b body k =
    rewritten b.param_profile b.reasoning_effort (str (codes b.model)) body k
