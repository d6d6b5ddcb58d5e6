-- ===== src/Tests/Catalogs.antt =====
-- internal/store/object.go: a catalog of one entry, and operations on it.
use nx_cache.Common.{
  ◌+◌, ◌^◌, ◌<◌, to_int64, none, ℕ, ◌*◌, ◌≤◌, arith, false, some, List, ◌≡◌, refl, [], ◌∷◌, codes,
  length, lookup, keys, Distinct, text_eq, text_eq_iff, mem, insert, sort_slice,
}
use nx_cache.Storage.Types.{ok, value_or}
use nx_cache.Store.Types.{no_info, Entry, Stats}
use nx_cache.Store.Object.{
  new_object, all_entries, list_older_than, stats, values, hits_key, page, newer, day_less, Catalog,
  no_stats,
}
use nx_cache.Store.Object
use nx_cache.Store.Object.Run.{run, perform, upsert, hit_at, Operation}
use nx_cache.Store.Object.Counters.{IsBalanced}
use nx_cache.Store.Object.Entries.{lookup-run, IsKeyed}
use nx_cache.Store.Object.Listing.{pages-cover, pages}

abbrev pub entry : Entry
entry = record {
  hash = codes "a1";
  size = 3;
  created_at = 7;
  last_accessed_at = 7;
  hits = 2;
  info = no_info;
}

abbrev pub catalog : Catalog
catalog = record {
  entries = (codes "a1", entry) ∷ [];
  stats = no_stats;
  dirty = false;
  load_failed = false;
}

abbrev pub operations : List Operation
operations = hit_at (codes "a1") 8 ∷ upsert (codes "b2") 4 9 no_info ∷ hit_at (codes "a1") 9 ∷ []

pub catalog-IsKeyed : IsKeyed catalog.entries
unfolding lookup mem
catalog-IsKeyed = record {
  distinct = (refl, tt);
  at_key = λ k e p. ground (arith, text_eq_iff (codes "a1") k);
}

no_stats-IsBalanced : IsBalanced no_stats
no_stats-IsBalanced = record { hits = refl; misses = refl; stores = refl }

still_there :
    lookup (codes "a1") (run operations catalog).entries
    ≡ some (record entry { hits = 4; last_accessed_at = 9 })
unfolding lookup run perform Object.record_hit insert Object.upsert_entry text_eq
still_there = refl

lookup-run_example : (codes "a1" ≡ codes "a1") × Distinct (keys (run operations catalog).entries)
lookup-run_example =
    lookup-run operations catalog (codes "a1") (record entry { hits = 4; last_accessed_at = 9 })
      catalog-IsKeyed still_there

pages-cover_example :
    (pages 2 2 (entry ∷ entry ∷ entry ∷ []) ≡ some (entry ∷ entry ∷ entry ∷ []))
    × ((k : ℕ)
        → (k + 1) * 2 < 2 ^ 63
        → (p : List Entry) × (page 2 (to_int64 (k * 2)) (entry ∷ entry ∷ entry ∷ []) ≡ some p)
          × (length p ≤ 2))
    × ((k : ℕ)
        → 2 ^ 63 ≤ k * 2
        → k * 2 < 2 ^ 64
        → page 2 (to_int64 (k * 2)) (entry ∷ entry ∷ entry ∷ []) ≡ none)
pages-cover_example =
    pages-cover 2 2 (entry ∷ entry ∷ entry ∷ []) (omega arith) (omega arith) (omega arith)

listed : list_older_than 8 catalog ≡ ok (entry ∷ [])
unfolding list_older_than sort_slice
listed = refl

abbrev report : Stats
report =
    value_or
      (record {
        entries = 0;
        total_size = 0;
        hits = 0;
        misses = 0;
        stores = 0;
        days = [];
        by_kind = [];
      })
      (stats 9 catalog)

reported : stats 9 catalog ≡ ok report
unfolding stats
reported = refl
