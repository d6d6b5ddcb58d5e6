-- ===== src/Tests/Cleaning.antt =====
-- internal/cleanup/cleanup.go: a run over a backend and a catalog in memory.
use nx_cache.Common.{
  true, ◌≡◌, refl, arith, [], ◌∷◌, codes, lookup, text_eq, text_eq_iff, mem, false, sort_slice,
}
use nx_cache.Storage.Types.{ok}
use nx_cache.Storage.Memory.{list_objects, Memory}
use nx_cache.Storage.Memory
use nx_cache.Storage.Memory.Laws.{memory_backend, memory_laws}
use nx_cache.Store.Types.{no_info, Entry}
use nx_cache.Store.Object
use nx_cache.Store.Object.{no_stats, list_older_than, Catalog}
use nx_cache.Store.Object.Entries.{IsKeyed}
use nx_cache.Store.Interface.{object_store, object_laws}
use nx_cache.Reconcile.{reconcile}
use nx_cache.Reconcile.Covered.{has_entry, reconcile_covers}
use nx_cache.Cleanup.{run_started, World, sweep, Cleaner}
use nx_cache.Cleanup.Removed.{Cleaned, sweep-Cleaned}
use nx_cache.Tests.Alphabet.{ascii}
use nx_cache.Cleanup.Ticks.{StaysYoung, run_started_spares}

abbrev old_entry : Entry
old_entry = record {
  hash = codes "a1";
  size = 1;
  created_at = 3;
  last_accessed_at = 7;
  hits = 2;
  info = no_info;
}

abbrev catalog : Catalog
catalog = record {
  entries = (codes "a1", old_entry) ∷ [];
  stats = no_stats;
  dirty = false;
  load_failed = false;
}

-- One object is older than 5, and one is not.
abbrev memory : Memory
memory = record {
  objects =
      (codes "a1", record { content = codes "x"; modified = 3 })
      ∷ (codes "b2", record { content = codes "y"; modified = 6 })
      ∷ [];
  metadata = [];
  now = 9;
}

abbrev world : World memory_backend (object_store ascii)
world = (memory, catalog)

catalog-IsKeyed : IsKeyed catalog.entries
unfolding lookup mem
catalog-IsKeyed = record {
  distinct = (refl, tt);
  at_key = λ k e p. ground (arith, text_eq_iff (codes "a1") k);
}

memory-IsSound : memory_laws.IsSound memory
unfolding mem text_eq
memory-IsSound = (refl, (refl, tt))

swept : (sweep memory_backend (object_store ascii) 5 world).0 ≡ ok 1
unfolding sweep list_older_than Memory.list Memory.list_objects mem sort_slice text_eq Memory.delete
    Object.delete
swept = refl

sweep-Cleaned_example :
    Cleaned memory_laws
      (object_laws ascii)
      5
      world
      (sweep memory_backend (object_store ascii) 5 world).1
      1
sweep-Cleaned_example =
    sweep-Cleaned memory_laws (object_laws ascii) 5 1 world memory-IsSound catalog-IsKeyed swept

abbrev loop_cleaner : Cleaner
loop_cleaner = record { ttl = 5; last_run = 0; min_gap = 0 }

stays_young :
    StaysYoung memory_laws (object_laws ascii) 5 world (codes "b2") ((9, 10) ∷ (10, 11) ∷ [])
unfolding StaysYoung lookup text_eq
stays_young = (refl, (refl, tt))

abbrev after_loop : World memory_backend (object_store ascii)
after_loop =
    (run_started memory_backend (object_store ascii) (9, 10) ((10, 11) ∷ []) 0 loop_cleaner world).0

run_started_spares_example :
    (memory_laws.view after_loop.0 (codes "b2") ≡ memory_laws.view memory (codes "b2"))
    × ((object_laws ascii).entry after_loop.1 (codes "b2")
        ≡ (object_laws ascii).entry catalog (codes "b2"))
run_started_spares_example =
    run_started_spares memory_laws (object_laws ascii) (9, 10) ((10, 11) ∷ []) 0 loop_cleaner world
      (codes "b2") memory-IsSound catalog-IsKeyed stays_young

listed : Memory.list memory ≡ ok (list_objects memory.objects)
unfolding Memory.list
listed = refl

reconcile_covers_example :
    has_entry
      (codes "b2")
      (reconcile memory_backend (object_store ascii) (λ t. no_info) 9 memory catalog)
    ≡ true
unfolding list_objects text_eq
reconcile_covers_example =
    reconcile_covers memory_backend ascii (λ t. no_info) 9 memory (list_objects memory.objects)
      (codes "b2") catalog listed refl
