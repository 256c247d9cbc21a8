-- ===== src/Tools/CacheTransfer/Shipping.antt =====
-- A cache that is exported on one machine and merged on another is replayed there
-- (tools/llm_cache_transfer.py with llm_gateway/app.py).
use dev_harness.Base.{
  ℕ, ◌<◌, ◌≡◌, some-eq, refl, sym, ◌∙◌, ap, subst, Bool, true, false, Option, none, some, List, [],
  ◌∷◌, String, str_eq, eq_iff, arith, Bool-cases, inl, inr, ◌⊎◌,
}
use dev_harness.Base.Dict
use dev_harness.Base.Dict.{Dict, Unique, lookup-insert, Unique-insert}
use dev_harness.Base.Json.{Json, Fields, object}
use dev_harness.LlmGateway.Cache.{Cache, CacheEntry}
use dev_harness.LlmGateway.Config.Backends.{GatewayConfig, recording, replay}
use dev_harness.LlmGateway.Keying.Collisions.{SameRequest}
use dev_harness.LlmGateway.Server.{Outside, World, Request, Reply, Gateway}
use dev_harness.LlmGateway.Server.Chat.{rewrite_of, key_of, chat_completions, serve, to_dict}
use dev_harness.LlmGateway.Server.Stored.{RoundTrips, Holds, InCache}
use dev_harness.LlmGateway.Server.Recording.{Recorded, recording-Recorded}
use dev_harness.LlmGateway.Server.Replay.{InGateway, serve-InGateway, Replays, replay-Replays}
use dev_harness.LlmGateway.Server.SameAnswers.{same_key}
use dev_harness.Tools.CacheTransfer.{
  Database, Summary, missing, table, copy_rows, selected_by, export, import_, import_rows, resolved,
}
use dev_harness.Tools.CacheTransfer.Merging.{upserted, lookup-import_rows}

-- The rows of a copy are those of the source that were selected, and those that were there.
Unique-copy_rows :
    (p : CacheEntry → Bool) (rows d : Dict CacheEntry) → Unique d → Unique (copy_rows p rows d)
unfolding copy_rows
Unique-copy_rows p [] d u = u
Unique-copy_rows p ((k, e) ∷ rows) d u = elim (Bool-cases (p e)) [
  | inl q ↦ rw q (Unique-copy_rows p rows (Dict.insert k e d) (Unique-insert k e d u))
  | inr q ↦ rw q (Unique-copy_rows p rows d u)
]

copy_rows-absent :
    (p : CacheEntry → Bool) (k : String) (rows d : Dict CacheEntry)
    → Dict.lookup k rows ≡ none
    → Dict.lookup k (copy_rows p rows d) ≡ Dict.lookup k d
unfolding copy_rows Dict.lookup
copy_rows-absent p k [] d h = refl
copy_rows-absent p k ((j, e) ∷ rows) d h = ground (
  arith,
  h,
  lookup-insert j k e d,
  copy_rows-absent p k rows (Dict.insert j e d),
  copy_rows-absent p k rows d,
)

lookup-copy_rows :
    (p : CacheEntry → Bool) (k : String) (e : CacheEntry) (rows d : Dict CacheEntry)
    → Unique rows
    → Dict.lookup k rows ≡ some e
    → p e ≡ true
    → Dict.lookup k (copy_rows p rows d) ≡ some e
unfolding copy_rows Dict.lookup
lookup-copy_rows p k e [] d u h s = cc
lookup-copy_rows p k e ((j, x) ∷ rows) d u h s = elim (Bool-cases (str_eq j k)) [
  | inl q ↦
      let same : x ≡ e = ground (arith, q, h) in
      let picked : p x ≡ true = subst (λ y. p y ≡ true) (sym same) s in
      let gone : Dict.lookup k rows ≡ none =
        subst (λ i. Dict.lookup i rows ≡ none) ((eq_iff j k).0 q) u.0 in
      rw picked (
        copy_rows-absent p k rows (Dict.insert j x d) gone
        ∙ lookup-insert j k x d
        ∙ rw q (ap some same))
  | inr q ↦
      let rest : Dict.lookup k rows ≡ some e = ground (arith, q, h) in
      ground (
        arith,
        lookup-copy_rows p k e rows (Dict.insert j x d) u.1 rest s,
        lookup-copy_rows p k e rows d u.1 rest s,
      )
]

resolved-kept :
    (overwrite : Bool) (e : CacheEntry) (old : Option CacheEntry)
    → (overwrite ≡ true) ⊎ (old ≡ none)
    → ((resolved overwrite e old).response_status_code ≡ e.response_status_code)
      × ((resolved overwrite e old).response_body ≡ e.response_body)
resolved-kept overwrite e none wins = (refl, refl)
resolved-kept true e (some old) wins = (refl, refl)
resolved-kept false e (some old) (inl never) = cc
resolved-kept false e (some old) (inr never) = cc

-- A response of an exported cache is in the cache that the export is merged into.
merged-Holds :
    (out : Outside) (overwrite : Bool) (key : String) (status : ℕ) (j : Json)
    (rows local : Dict CacheEntry)
    → Unique rows
    → (overwrite ≡ true) ⊎ (Dict.lookup key local ≡ none)
    → Holds out key status j rows
    → Holds out key status j
        (import_rows overwrite (copy_rows (selected_by none none) rows []) local)
merged-Holds out overwrite key status j rows local u wins h =
    let copied = copy_rows (selected_by none none) rows [] in
    let there : Dict.lookup key copied ≡ some h.entry =
      lookup-copy_rows (selected_by none none) key h.entry rows [] u h.at refl in
    let merged =
      lookup-import_rows overwrite key copied local
        (Unique-copy_rows (selected_by none none) rows [] tt)
      ∙ ap (λ o. upserted overwrite o (Dict.lookup key local)) there in
    let (status_kept, body_kept) = resolved-kept overwrite h.entry (Dict.lookup key local) wins in
    record {
      entry = resolved overwrite h.entry (Dict.lookup key local);
      at = merged;
      same_status = status_kept ∙ h.same_status;
      same_body = body_kept ∙ h.same_body;
      usage = h.usage;
      readable = h.readable;
    }

imported-rows :
    (overwrite : Bool) (rows local opened : Dict CacheEntry) (file : Database) (summary : Summary)
    → export (table rows) missing none none ≡ some file
    → import_ (table local) file overwrite ≡ some (opened, summary)
    → import_rows overwrite (copy_rows (selected_by none none) rows []) local ≡ opened
unfolding export import_
imported-rows overwrite rows local opened file summary e i =
    let copied = copy_rows (selected_by none none) rows [] in
    let same : table copied ≡ file = some-eq (table copied) file e in
    let merged : import_ (table local) (table copied) overwrite ≡ some (opened, summary) =
      subst (λ f. import_ (table local) f overwrite ≡ some (opened, summary)) (sym same) i in
    ap (λ (p : Dict CacheEntry × Summary). p.0) (some-eq _ (opened, summary) merged)

-- A gateway recorded a success; its cache was exported whole and merged into the cache of another
-- machine, with --overwrite or where that had no row of the key. A gateway that is started there in
-- replay mode, with the same setting of normalize_content, answers a request that asks for the same with
-- the recorded status and content, at the cost "0", spending no money and calling no backend, whatever
-- requests it serves first. SQLite must have stored the response and read the row, keys must be unique,
-- and json must read back the recorded content as it wrote it.
pub shipped_then_replay :
    (out : Outside) (debugging overwrite : Bool) (cfg cfg' : GatewayConfig) (world world' : World)
    (g started : Gateway) (c stopped opened : Cache) (request request' : Request) (ms ms' : Fields)
    (r : Reply) (rs : List (World × Request)) (local : Dict CacheEntry) (file : Database)
    (summary : Summary)
    → RoundTrips out r.content
    → cfg.cache.mode ≡ recording
    → g.cache ≡ some c
    → world.sqlite.writes ≡ true
    → out.loads request.raw_body ≡ some (object ms)
    → (chat_completions out debugging cfg world g request).1 ≡ some r
    → r.status < 400
    → (chat_completions out debugging cfg world g request).0.cache ≡ some stopped
    → Unique stopped.rows
    → export (table stopped.rows) missing none none ≡ some file
    → (overwrite ≡ true) ⊎ (Dict.lookup (key_of out cfg (to_dict ms [])) local ≡ none)
    → import_ (table local) file overwrite ≡ some (opened.rows, summary)
    → cfg'.cache.mode ≡ replay
    → cfg'.cache.normalize_content ≡ cfg.cache.normalize_content
    → started.cache ≡ some opened
    → world'.sqlite.reads ≡ true
    → out.loads request'.raw_body ≡ some (object ms')
    → SameRequest (rewrite_of out cfg) out.show (to_dict ms' []) (to_dict ms [])
    → Replays r.status r.content
        (serve out debugging cfg' rs started)
        (chat_completions out debugging cfg' world' (serve out debugging cfg' rs started) request')
unfolding Recorded InCache InGateway
shipped_then_replay out debugging overwrite cfg cfg' world world' g started c stopped opened request
      request' ms ms' r rs local file summary t m e w l answered lt at unique exported wins imported
      m' n start reads l' asks =
    let key : String = key_of out cfg (to_dict ms []) in
    let recorded : InCache out key r.status r.content (some stopped) =
      subst (InCache out key r.status r.content) at
        (recording-Recorded out cfg debugging world g c request ms m w e l r answered lt t) in
    let merged_rows =
      import_rows overwrite (copy_rows (selected_by none none) stopped.rows []) local in
    let merged : merged_rows ≡ opened.rows =
      imported-rows overwrite stopped.rows local opened.rows file summary exported imported in
    let kept : InCache out key r.status r.content started.cache =
      subst (InCache out key r.status r.content) (sym start) (
        subst (Holds out key r.status r.content) merged (
          merged-Holds out overwrite key r.status r.content stopped.rows local unique wins
            recorded)) in
    replay-Replays out debugging cfg' m' key r.status r.content world'
      (serve out debugging cfg' rs started) request' ms' t reads l'
      (same_key out cfg cfg' ms ms' n asks)
      (serve-InGateway out debugging cfg' m' key r.status r.content rs started kept)
