-- ===== src/Tools/CacheTransfer/Merging.antt =====
-- What a merge of two caches holds (tools/llm_cache_transfer.py).
use dev_harness.Base.{
  ◌+◌, ◌-◌, ◌≡◌, refl, ◌∙◌, ap, subst, max, Bool, true, false, Option, none, some, [], ◌∷◌, String,
  str_eq, eq_iff, arith, length, Bool-cases, Option-cases, inl, inr,
}
use mathlib.Core.Path.{ap₂}
use dev_harness.Base.Dict
use dev_harness.Base.Dict.{
  Dict, Unique, lookup-insert, lookup-nil, lookup-cons, insert_new, Unique-insert, only,
}
use dev_harness.LlmGateway.Cache.{CacheEntry}
use dev_harness.Tools.CacheTransfer.{
  table, Summary, resolved, import_row, import_rows, count_new, count_present, import_dry, import_,
}

-- The row of a key after the upserts
abbrev pub upserted : Bool → Option CacheEntry → Option CacheEntry → Option CacheEntry
upserted overwrite none old = old
upserted overwrite (some e) old = some (resolved overwrite e old)

-- The row of a key after a merge: the one that was only on one side, else the local one, or with
-- `overwrite` the incoming one with the greater count of hits.
abbrev both : Bool → Option CacheEntry → Option CacheEntry → Option CacheEntry
both overwrite none old = old
both overwrite (some e) none = some e
both false (some e) (some old) = some old
both true (some e) (some old) = some (record e { hit_count = max old.hit_count e.hit_count })

upserted-both :
    (overwrite : Bool) (row old : Option CacheEntry)
    → upserted overwrite row old ≡ both overwrite row old
upserted-both overwrite none old = refl
upserted-both overwrite (some e) none = refl
upserted-both false (some e) (some old) = refl
upserted-both true (some e) (some old) = refl

pub lookup-import_rows :
    (overwrite : Bool) (k : String) (rows d : Dict CacheEntry)
    → Unique rows
    → Dict.lookup k (import_rows overwrite rows d)
      ≡ upserted overwrite (Dict.lookup k rows) (Dict.lookup k d)
unfolding import_rows Dict.lookup
lookup-import_rows overwrite k [] d u = refl
lookup-import_rows overwrite k ((j, e) ∷ rows) d u = elim (Bool-cases (str_eq j k)) [
  | inl q ↦
      let jk : j ≡ k = (eq_iff j k).0 q in
      let row = resolved overwrite e (Dict.lookup j d) in
      let gone : Dict.lookup k rows ≡ none = subst (λ i. Dict.lookup i rows ≡ none) jk u.0 in
      let put : Dict.lookup k (Dict.insert j row d) ≡ some row =
        lookup-insert j k row d ∙ ground (arith, q) in
      rw q (
        lookup-import_rows overwrite k rows (import_row overwrite j e d) u.1
        ∙ ap₂ (upserted overwrite) gone put
        ∙ ap (λ i. some (resolved overwrite e (Dict.lookup i d))) jk)
  | inr q ↦
      let row = resolved overwrite e (Dict.lookup j d) in
      let kept : Dict.lookup k (Dict.insert j row d) ≡ Dict.lookup k d =
        lookup-insert j k row d ∙ ground (arith, q) in
      rw q (
        lookup-import_rows overwrite k rows (import_row overwrite j e d) u.1
        ∙ ap (upserted overwrite (Dict.lookup k rows)) kept)
]

-- A key that is none of the rows changes no count of them.
count_new-insert :
    (k : String) (v : CacheEntry) (rows d : Dict CacheEntry)
    → Dict.lookup k rows ≡ none
    → count_new rows (Dict.insert k v d) ≡ count_new rows d
unfolding count_new Dict.lookup
count_new-insert k v [] d h = refl
count_new-insert k v ((j, e) ∷ rows) d h =
    ground (arith, eq_iff j k, eq_iff k j, lookup-insert k j v d, count_new-insert k v rows d)

length-insert_old :
    (k : String) (v w : CacheEntry) (d : Dict CacheEntry)
    → Dict.lookup k d ≡ some w
    → length (Dict.insert k v d) ≡ length d
unfolding Dict.insert Dict.lookup
length-insert_old k v w [] h = cc
length-insert_old k v w ((j, x) ∷ d) h = ground (arith, length-insert_old k v w d)

length-insert_new :
    (k : String) (v : CacheEntry) (d : Dict CacheEntry)
    → Dict.lookup k d ≡ none
    → length (Dict.insert k v d) ≡ length d + 1
unfolding Dict.insert Dict.lookup
length-insert_new k v [] h = refl
length-insert_new k v ((j, x) ∷ d) h = ground (arith, length-insert_new k v d)

length-import_rows :
    (overwrite : Bool) (rows d : Dict CacheEntry)
    → Unique rows
    → length (import_rows overwrite rows d) ≡ length d + count_new rows d
unfolding import_rows count_new
length-import_rows overwrite [] d u = omega arith
length-import_rows overwrite ((k, e) ∷ rows) d u =
    let row = resolved overwrite e (Dict.lookup k d) in
    let rest = length-import_rows overwrite rows (Dict.insert k row d) u.1 in
    let same = count_new-insert k row rows d u.0 in
    elim (Option-cases (Dict.lookup k d)) [
      | inl h ↦ let longer = length-insert_new k row d h in ground (arith, h, rest, same, longer)
      | inr (w, h) ↦
          let as_long = length-insert_old k row w d h in ground (arith, h, rest, same, as_long)
    ]

present-new : (rows d : Dict CacheEntry) → count_present rows d + count_new rows d ≡ length rows
unfolding count_present count_new
present-new [] d = refl
present-new ((k, e) ∷ rows) d = ground (arith, present-new rows d)

-- A merge, and what the dry run told of it.
pub record Merges (overwrite : Bool) (rows d : Dict CacheEntry)
    (result : Option (Dict CacheEntry × Summary)) (told : Option Summary) : Type 0 where
  pub after : Dict CacheEntry
  pub summary : Summary
  pub foretold : Summary
  pub applied : result ≡ some (after, summary)
  pub dry_run : told ≡ some foretold
  pub as_many_new : summary.new ≡ foretold.new
  pub as_many_present : summary.already_present ≡ foretold.already_present
  pub rows_after :
      (k : String) → Dict.lookup k after ≡ both overwrite (Dict.lookup k rows) (Dict.lookup k d)

-- A merge of a cache file into a cache keeps every row whose key the file has not and adds every row
-- whose key the cache has not; of a key on both sides the local row stays, or with --overwrite the
-- incoming one comes with the greater count of hits. The dry run tells how many rows it adds and how
-- many were there. The keys of the file are unique.
pub import_-Merges :
    (overwrite : Bool) (rows d : Dict CacheEntry)
    → Unique rows
    → Merges overwrite rows d
        (import_ (table d) (table rows) overwrite)
        (import_dry (table d) (table rows))
unfolding import_ import_dry
import_-Merges overwrite rows d u =
    let longer = length-import_rows overwrite rows d u in
    let all = present-new rows d in
    record {
      after = import_rows overwrite rows d;
      summary = record {
        incoming = length rows;
        new = length (import_rows overwrite rows d) - length d;
        already_present = length rows - (length (import_rows overwrite rows d) - length d);
        applied = length rows;
      };
      foretold = record {
        incoming = length rows;
        new = count_new rows d;
        already_present = count_present rows d;
        applied = 0;
      };
      applied = refl;
      dry_run = refl;
      as_many_new = omega (arith, longer);
      as_many_present = omega (arith, longer, all);
      rows_after = λ k.
          lookup-import_rows overwrite k rows d u
          ∙ upserted-both overwrite (Dict.lookup k rows) (Dict.lookup k d);
    }
