-- ===== src/LlmGateway/Server/Stored.antt =====
-- A response in the cache of llm_gateway/app.py: what puts it there, and that a lookup keeps it.
use dev_harness.Base.{
  ℕ, ◌≡◌, refl, sym, ◌∙◌, ap, subst, Bool, true, false, Option, none, some, [], ◌∷◌, String,
  some-eq, bind-some, str_eq, eq_iff, Bool-cases, inl, inr, arith,
}
use dev_harness.Base.Dict
use dev_harness.Base.Dict.{Dict, lookup-insert}
use dev_harness.Base.Text.{Text}
use dev_harness.Base.Json.{Json}
use dev_harness.LlmGateway.Cache
use dev_harness.LlmGateway.Cache.{Cache, CacheEntry, Sqlite, found, bumped, new_row}
use dev_harness.LlmGateway.Config.Backends.{BackendConfig}
use dev_harness.LlmGateway.Costs.{read_usage}
use dev_harness.LlmGateway.Server.{Outside, World, record_spend, metered}
use dev_harness.LlmGateway.Server.Answers.{put_bytes}
use dev_harness.Worker.Usage.{Usage}

-- What is documented of `json`: a value that was written is read back, and the empty text is none.
pub record RoundTrips (out : Outside) (j : Json) : Type 0 where
  pub reads_back : out.loads (out.dumps j) ≡ some j
  pub not_empty : out.loads [] ≡ none

lookup_new :
    {V : Type 0} (k : String) (v : V) (d : Dict V) → Dict.lookup k (Dict.insert k v d) ≡ some v
lookup_new k v d = ground (arith, lookup-insert k k v d, eq_iff k k)

module _ (out : Outside) where
  -- The rows hold a response with this status and content under the key, whose usage can be read.
  pub record Holds (key : String) (status : ℕ) (content : Json) (rows : Dict CacheEntry)
      : Type 0 where
    pub entry : CacheEntry
    pub at : Dict.lookup key rows ≡ some entry
    pub same_status : entry.response_status_code ≡ status
    pub same_body : entry.response_body ≡ out.dumps content
    pub usage : Option Usage
    pub readable : read_usage content ≡ some usage

  put-Holds :
      (sqlite : Sqlite) (now ms : ℕ) (key : String) (status : ℕ) (j : Json) (u : Option Usage)
      (b : Option String) (c : Cache)
      → sqlite.writes ≡ true
      → read_usage j ≡ some u
      → Holds key status j (Cache.put sqlite now key (out.dumps j) status ms b c).rows
  unfolding Cache.put
  put-Holds sqlite now ms key status j u b c w r = rw w (record {
    entry = new_row now (out.dumps j) status ms b (Dict.lookup key c.rows);
    at = lookup_new key _ c.rows;
    same_status = refl;
    same_body = refl;
    usage = u;
    readable = r;
  })

  found-Holds :
      (bumps : Bool) (key k : String) (status : ℕ) (j : Json) (c : Cache) (o : Option CacheEntry)
      → Dict.lookup k c.rows ≡ o
      → Holds key status j c.rows
      → Holds key status j (found bumps k c o).0.rows
  found-Holds bumps key k status j c none e h = h
  found-Holds false key k status j c (some entry) e h = h
  found-Holds true key k status j c (some entry) e h = elim (Bool-cases (str_eq k key)) [
    | inl q ↦
        let k_key : k ≡ key = (eq_iff k key).0 q in
        let hit : Dict.lookup key c.rows ≡ some entry =
          subst (λ x. Dict.lookup x c.rows ≡ some entry) k_key e in
        let same : entry ≡ h.entry = some-eq entry h.entry (sym hit ∙ h.at) in
        record {
          entry = bumped entry;
          at =
              subst (λ x. Dict.lookup x (Dict.insert k (bumped entry) c.rows) ≡ some (bumped entry))
                k_key (lookup_new k (bumped entry) c.rows);
          same_status = ap (λ (x : CacheEntry). x.response_status_code) same ∙ h.same_status;
          same_body = ap (λ (x : CacheEntry). x.response_body) same ∙ h.same_body;
          usage = h.usage;
          readable = h.readable;
        }
    | inr q ↦ record {
      entry = h.entry;
      at = lookup-insert k key (bumped entry) c.rows ∙ rw q h.at;
      same_status = h.same_status;
      same_body = h.same_body;
      usage = h.usage;
      readable = h.readable;
    }
  ]

  pub get-Holds :
      (sqlite : Sqlite) (key k : String) (status : ℕ) (j : Json) (c : Cache)
      → Holds key status j c.rows
      → Holds key status j (Cache.get sqlite k c).0.rows
  unfolding Cache.get
  get-Holds sqlite key k status j c h = elim (Bool-cases sqlite.reads) [
    | inl e ↦ rw e (found-Holds sqlite.bumps key k status j c (Dict.lookup k c.rows) refl h)
    | inr e ↦ rw e h
  ]

  -- The state of a gateway whose cache holds the response.
  unfoldable pub InCache : String → ℕ → Json → Option Cache → Type 0
  InCache key status j none = ⊥
  InCache key status j (some c) = Holds key status j c.rows

  -- What a recorded success leaves in the cache.
  pub put_bytes-InCache :
      (world : World) (key : String) (bytes : Text) (status : ℕ) (j : Json) (u : Option Usage)
      (b : String) (c : Cache) (headers : Dict Text)
      → RoundTrips out j
      → bytes ≡ out.dumps j
      → world.sqlite.writes ≡ true
      → read_usage j ≡ some u
      → InCache key status j (put_bytes world key bytes status b c headers).0
  unfolding InCache
  put_bytes-InCache world key [] status j u b c headers t same w r =
      let never : none ≡ some j = sym t.not_empty ∙ ap out.loads same ∙ t.reads_back in cc
  put_bytes-InCache world key (x ∷ bytes) status j u b c headers t same w r =
      subst
        (λ bs.
          Holds key status j
            (Cache.put world.sqlite world.now key bs status world.wallclock_ms (some b) c).rows)
        (sym same)
        (put-Holds world.sqlite world.now world.wallclock_ms key status j u (some b) c w r)

  pub usage_of_spend :
      (backend : BackendConfig) (j : Json) (n : Option ℕ)
      → record_spend backend j ≡ some n
      → (u : Option Usage) × (read_usage j ≡ some u)
  unfolding record_spend
  usage_of_spend backend j n h =
      let (u, e, rest) = bind-some (read_usage j) (metered backend) n h in (u, e)
