-- ===== src/LlmGateway/Keying/Collisions.antt =====
-- Which requests share a cache key.
use dev_harness.Base.{◌≡◌, refl, ap, ◌∙◌, ◌↔◌, Option, none, some, String}
use mathlib.Core.Path.{sym}
use dev_harness.Base.Dict
use dev_harness.Base.Dict.{Dict}
use dev_harness.Base.Text.{Text}
use dev_harness.Base.Json.{Json, Jsons, null, bool, number, str, array, object, nil}
use dev_harness.LlmGateway.Keying.{
  normalize_messages, kept_messages, normalize_tools, normalize_params, or_empty, key_payload,
  derive_key,
}
use dev_harness.LlmGateway.Keying.Messages.{SameMessages, same-kept_messages, kept_messages-same}
use dev_harness.LlmGateway.Keying.Params.{SameParams, normalize_params-SameParams}

-- The messages of a body; anything that is no list has none.
abbrev pub messages_of : Option Json → Jsons
messages_of (some (array js)) = js
messages_of _ = nil

normalize_messages_lem :
    (rewrite : Option (Text → Text)) (o : Option Json)
    → normalize_messages rewrite o ≡ array (kept_messages rewrite (messages_of o))
unfolding normalize_messages kept_messages
normalize_messages_lem rewrite none = refl
normalize_messages_lem rewrite (some (array js)) = refl
normalize_messages_lem rewrite (some null) = refl
normalize_messages_lem rewrite (some (bool b)) = refl
normalize_messages_lem rewrite (some (number n)) = refl
normalize_messages_lem rewrite (some (str s)) = refl
normalize_messages_lem rewrite (some (object ms)) = refl

-- Two requests that ask the same: the same model, tools and parameters, and the same messages but
-- for those of the assistant and of unknown roles.
pub record SameRequest (rewrite : Option (Text → Text)) (show : Json → Text) (b b' : Dict Json)
    : Type 0 where
  pub model : or_empty (Dict.lookup "model" b) ≡ or_empty (Dict.lookup "model" b')
  pub messages :
      SameMessages rewrite
        (messages_of (Dict.lookup "messages" b))
        (messages_of (Dict.lookup "messages" b'))
  pub tools :
      normalize_tools show (Dict.lookup "tools" b) ≡ normalize_tools show (Dict.lookup "tools" b')
  pub params : SameParams b b'

module _ (rewrite : Option (Text → Text)) (show : Json → Text) (b b' : Dict Json) where
  key_payload-SameRequest :
      key_payload rewrite show b ≡ key_payload rewrite show b' → SameRequest rewrite show b b'
  unfolding key_payload
  key_payload-SameRequest h =
      let m = Dict.lookup "messages" b in
      let m' = Dict.lookup "messages" b' in
      let kept : normalize_messages rewrite m ≡ normalize_messages rewrite m' = cc in
      let params : normalize_params b ≡ normalize_params b' = cc in
      let arrays : array (kept_messages rewrite (messages_of m))
          ≡ array (kept_messages rewrite (messages_of m')) =
        sym (normalize_messages_lem rewrite m) ∙ kept ∙ normalize_messages_lem rewrite m' in
      record {
        model = cc;
        messages = kept_messages-same rewrite (messages_of m) (messages_of m') cc;
        tools = cc;
        params = (normalize_params-SameParams b b').0 params;
      }

  pub SameRequest-key_payload :
      SameRequest rewrite show b b' → key_payload rewrite show b ≡ key_payload rewrite show b'
  unfolding key_payload
  SameRequest-key_payload s =
      let kept : normalize_messages rewrite (Dict.lookup "messages" b)
          ≡ normalize_messages rewrite (Dict.lookup "messages" b') =
        normalize_messages_lem rewrite (Dict.lookup "messages" b)
        ∙ ap array (same-kept_messages rewrite s.messages)
        ∙ sym (normalize_messages_lem rewrite (Dict.lookup "messages" b')) in
      let params : normalize_params b ≡ normalize_params b' =
        (normalize_params-SameParams b b').1 s.params in
      rw (s.model, s.tools, kept, params) refl

  -- Two requests have the same cache key exactly if they ask for the same model, tools and
  -- parameters with the same messages, but for the messages of the assistant and of unknown roles
  -- and for fields of a message other than its role, content and name; provided that their two
  -- payloads do not collide under the digest.
  pub derive_key-SameRequest :
      (digest : Json → String)
      → (digest (key_payload rewrite show b) ≡ digest (key_payload rewrite show b')
          → key_payload rewrite show b ≡ key_payload rewrite show b')
      → (derive_key digest rewrite show b ≡ derive_key digest rewrite show b')
        ↔ SameRequest rewrite show b b'
  derive_key-SameRequest digest no_collision =
      (λ h. key_payload-SameRequest (no_collision h), λ s. ap digest (SameRequest-key_payload s))
