-- ===== src/LlmGateway/Server/SameAnswers.antt =====
-- Record and replay by `chat_completions` of llm_gateway/app.py: a run against the same cache file.
use dev_harness.Base.{
  ◌<◌, ◌≡◌, sym, ◌∙◌, ap, subst, Bool, true, none, some, List, [], String, if◌then◌else◌,
}
use dev_harness.Base.Json.{Fields, object}
use dev_harness.LlmGateway.Cache.{Cache}
use dev_harness.LlmGateway.Config.Backends.{GatewayConfig, recording, replay}
use dev_harness.LlmGateway.Keying.{normalize_volatile_content, derive_key}
use dev_harness.LlmGateway.Keying.Collisions.{SameRequest, SameRequest-key_payload}
use dev_harness.LlmGateway.Server.{Outside, World, Request, Reply, Gateway}
use dev_harness.LlmGateway.Server.Chat.{rewrite_of, key_of, chat_completions, serve, to_dict}
use dev_harness.LlmGateway.Server.Stored.{RoundTrips, Holds, InCache}
use dev_harness.LlmGateway.Server.Recording.{Recorded, recording-Recorded}
use dev_harness.LlmGateway.Server.Replay.{InGateway, serve-InGateway, Replays, replay-Replays}

pub same_key :
    (out : Outside) (cfg cfg' : GatewayConfig) (ms ms' : Fields)
    → cfg'.cache.normalize_content ≡ cfg.cache.normalize_content
    → SameRequest (rewrite_of out cfg) out.show (to_dict ms' []) (to_dict ms [])
    → key_of out cfg' (to_dict ms' []) ≡ key_of out cfg (to_dict ms [])
same_key out cfg cfg' ms ms' n s =
    let same_rewrite : rewrite_of out cfg' ≡ rewrite_of out cfg =
      ap (λ b. if b then some (normalize_volatile_content out.sub out.patterns) else none) n in
    ap (λ rewrite. derive_key out.digest rewrite out.show (to_dict ms' [])) same_rewrite
    ∙ ap out.digest (SameRequest-key_payload (rewrite_of out cfg) out.show _ _ s)

-- A gateway recorded a success, and a gateway is started in replay mode on the same rows, with the same
-- setting of normalize_content. Whatever requests it serves first, a request that asks for the same is
-- answered with the recorded status and content, at the cost "0", where no money is spent and no
-- backend's health is touched. The response must have been written by SQLite, and the row be read; json
-- must read back the recorded content as it wrote it.
pub record_then_replay :
    (out : Outside) (debugging : Bool) (cfg cfg' : GatewayConfig) (world world' : World)
    (g started : Gateway) (c stopped opened : Cache) (request request' : Request) (ms ms' : Fields)
    (r : Reply) (rs : List (World × Request))
    → RoundTrips out r.content
    → cfg.cache.mode ≡ recording
    → g.cache ≡ some c
    → world.sqlite.writes ≡ true
    → out.loads request.raw_body ≡ some (object ms)
    → (chat_completions out debugging cfg world g request).1 ≡ some r
    → r.status < 400
    → (chat_completions out debugging cfg world g request).0.cache ≡ some stopped
    → cfg'.cache.mode ≡ replay
    → cfg'.cache.normalize_content ≡ cfg.cache.normalize_content
    → started.cache ≡ some opened
    → opened.rows ≡ stopped.rows
    → world'.sqlite.reads ≡ true
    → out.loads request'.raw_body ≡ some (object ms')
    → SameRequest (rewrite_of out cfg) out.show (to_dict ms' []) (to_dict ms [])
    → Replays r.status r.content
        (serve out debugging cfg' rs started)
        (chat_completions out debugging cfg' world' (serve out debugging cfg' rs started) request')
unfolding Recorded InCache InGateway
record_then_replay out debugging cfg cfg' world world' g started c stopped opened request request'
      ms ms' r rs t m e w l answered lt at m' n start same reads l' asks =
    let key : String = key_of out cfg (to_dict ms []) in
    let recorded : InCache out key r.status r.content (some stopped) =
      subst (InCache out key r.status r.content) at
        (recording-Recorded out cfg debugging world g c request ms m w e l r answered lt t) in
    let kept : InCache out key r.status r.content started.cache =
      subst (InCache out key r.status r.content) (sym start)
        (subst (Holds out key r.status r.content) (sym same) recorded) in
    replay-Replays out debugging cfg' m' key r.status r.content world'
      (serve out debugging cfg' rs started) request' ms' t reads l'
      (same_key out cfg cfg' ms ms' n asks)
      (serve-InGateway out debugging cfg' m' key r.status r.content rs started kept)
