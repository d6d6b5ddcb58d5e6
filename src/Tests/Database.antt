-- ===== src/Tests/Database.antt =====
-- internal/store/store.go: a database beside a catalog in memory, and one that refuses a statement.
use nx_cache.Common.{
  ap, ◌∙◌, ℕ, ◌≡◌, refl, true, false, ◌==◌, if◌then◌else◌, none, some, ◌++◌, [], ◌∷◌, Text, codes,
  lookup, insert, text_eq, mem,
}
use nx_cache.Storage.Types.{ok, is_some, ok_injective}
use nx_cache.Storage.Memory.Laws.{memory_backend, memory_laws}
use nx_cache.Storage.Memory.{new_memory}
use nx_cache.Storage.Memory
use nx_cache.Store.Types.{no_info, Entry, Stats}
use nx_cache.Store.Object.{Catalog}
use nx_cache.Store.Object
use nx_cache.Store.Object.Run.{perform, run}
use nx_cache.Store.Db.{Db, upsert_entry, and_then, exec, record_hit, bump, day_column}
use nx_cache.Store.Interface.{call}
use nx_cache.Store.Db.Queries.{stats}
use nx_cache.Store.Db.Statements.{db_store}
use nx_cache.Store.Db.Migrate.{migrate, open_db, first_columns, Host}
use nx_cache.Store.Db.Reported.{Reports, stats_after_open}
use nx_cache.Store.Db.Mirror.{tables_of}
use nx_cache.Store.Db.Mirror.Report.{AllDays, Alike, stats-Alike}
use nx_cache.Store.Db.Mirror.Runs.{run_db, all_none, AllAgree, run_db-tables_of}
use nx_cache.CacheApi.{after_upsert, World}
use nx_cache.CacheApi.Rollback.{after_upsert-dangling}
use nx_cache.Tests.Catalogs.{catalog, operations, catalog-IsKeyed}
use nx_cache.Tests.Uploads.{cleaner, config, moments}

abbrev database : Db
database = record {
  tables = tables_of catalog;
  runs = 0;
  answers = λ n. none;
  unreadable = λ n i. false;
  stops = λ n. none;
}

never_some : {A : Type 0} {B : Type 0} {a : A} → none ≡ some a → B
never_some h = absurd (cc)

operations-AllAgree : AllAgree operations catalog
unfolding AllAgree lookup perform insert Object.record_hit Object.upsert_entry text_eq
operations-AllAgree = ((refl, refl), ((refl, λ e p. never_some p), ((refl, refl), tt)))

run_db-tables_of_example :
    ((run_db operations database).1.tables ≡ tables_of (run operations catalog))
    × (all_none (run_db operations database).0 ≡ true)
run_db-tables_of_example =
    run_db-tables_of operations catalog database catalog-IsKeyed operations-AllAgree (λ n. refl)
      refl

-- A file of the first version; SQLite names a column that is there already.
abbrev old_file : Db
old_file = record database {
  tables = record {
    columns = first_columns;
    cache_entries = [];
    counters = (codes "hits", 4) ∷ [];
    daily_stats = [];
  };
}

abbrev duplicate : Text → Text
duplicate col = codes "duplicate column name: " ++ col

abbrev host : Host
host = record { dir = λ p. codes "data"; mkdir_fails = λ d. false; sql_open = λ name. ok old_file }

abbrev opened : Db
opened = (migrate duplicate old_file).1

open_db_fine : open_db duplicate host (codes "c0ffee") (codes "data/cache.db") ≡ ok opened
unfolding open_db text_eq and_then exec mem migrate
open_db_fine = refl

readable :
    (i : ℕ) → (run_db operations opened).1.unreadable (run_db operations opened).1.runs i ≡ false
unfolding run_db call record_hit and_then exec upsert_entry mem text_eq bump day_column migrate
readable i = refl

stats_after_open_example :
    (s : Stats) × (stats 100 (run_db operations opened).1 ≡ ok s)
    × Reports (run_db operations opened).1 s
stats_after_open_example =
    stats_after_open duplicate host (codes "c0ffee") (codes "data/cache.db") operations 100 opened
      (λ d0 e n m h. never_some (ap (λ d. d.answers n) (ok_injective old_file d0 e) ∙ h))
      open_db_fine readable

stats-Alike_example :
    (s : Stats) × (s' : Stats) × (stats 100 database ≡ ok s)
    × (Object.stats 100 catalog ≡ ok s')
    × Alike s s'
unfolding AllDays
stats-Alike_example = stats-Alike 100 catalog database refl (λ i. refl) refl tt

abbrev plain_entry : Entry
plain_entry = record {
  hash = codes "a1";
  size = 3;
  created_at = 7;
  last_accessed_at = 7;
  hits = 2;
  info = record {
    project = codes "shop";
    target = codes "build";
    config = [];
    kind = codes "build";
  };
}

-- The second statement is refused.
abbrev refusing : Db
refusing = record database {
  answers = λ n. if n == 1 then some (codes "database or disk is full") else none;
}

abbrev refusing_world : World memory_backend db_store
refusing_world = record {
  backend = new_memory 5;
  store = refusing;
  metrics = none;
  hub = none;
  cleaner = cleaner;
  runs = 0;
}

after_upsert-dangling_example :
    let r =
      after_upsert config moments
        (codes "c3")
        (upsert_entry (codes "c3") 3 7 no_info refusing)
        refusing_world in
    (r.0.status ≡ 500)
    × (memory_laws.view r.1.backend (codes "c3") ≡ none)
    × (is_some (lookup (codes "c3") r.1.store.tables.cache_entries) ≡ true)
unfolding Memory.delete
after_upsert-dangling_example =
    after_upsert-dangling memory_laws config moments (codes "c3") 3 7 no_info refusing_world
      (codes "database or disk is full") refl refl refl
