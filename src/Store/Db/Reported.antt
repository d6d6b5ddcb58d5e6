-- ===== src/Store/Db/Reported.antt =====
-- internal/store/store.go: what `Stats` of a database finds that `Open` has yielded.
use nx_cache.Common.{
  ℕ, ◌+◌, ◌-◌, ◌*◌, ◌≡◌, refl, inl, inr, true, false, some, List, [], ◌∷◌, arith, Option-cases,
  length, sum_by, Text, codes, lookup, Time, nanos_per_day, day_text, sort_slice,
}
use nx_cache.Storage.Types.{is_some, ok}
use nx_cache.Store.Types.{Stats}
use nx_cache.Store.Kinds.{kind_counts_from_map}
use nx_cache.Store.Object.{day_less}
use nx_cache.Store.Object.Run.{Operation}
use nx_cache.Store.Interface.{call}
use nx_cache.Store.Db.Migrate.{dsn, open_db, Host}
use nx_cache.Store.Db.Migrated.{Honest, IsMigrated}
use nx_cache.Store.Db.Migrated.Opened.{open_db-IsMigrated}
use nx_cache.Store.Db.Queries.{
  scan_all, query, row_found, query_counter, group_by_kind, add_groups, kind_rows, days_from, stats,
}
use nx_cache.Store.Db.Statements.{db_store, lookup-update_where, call_keeps, Closed}
use nx_cache.Store.Db.Mirror.Runs.{run_db}
use nx_cache.Store.Db.{update_where, Tables, Db}

abbrev IsCounted : Text → Tables → Type 0
IsCounted key t = is_some (lookup key t.counters) ≡ true

IsCounted-keeps :
    (key j : Text) (t : Tables)
    → IsCounted j t
    → IsCounted j (record t { counters = update_where (λ n. n + 1) key t.counters })
IsCounted-keeps key j t h = rw lookup-update_where (ground arith)

IsMigrated-Closed : Closed IsMigrated
IsMigrated-Closed = record {
  counted = λ key t h. record {
    columns = h.columns;
    hits = IsCounted-keeps key (codes "hits") t h.hits;
    misses = IsCounted-keeps key (codes "misses") t h.misses;
    stores = IsCounted-keeps key (codes "stores") t h.stores;
  };
  dated = λ days t h. record {
    columns = h.columns;
    hits = h.hits;
    misses = h.misses;
    stores = h.stores;
  };
  inserted = λ hash r t h. record {
    columns = h.columns;
    hits = h.hits;
    misses = h.misses;
    stores = h.stores;
  };
  updated = λ f hash t h. record {
    columns = h.columns;
    hits = h.hits;
    misses = h.misses;
    stores = h.stores;
  };
  removed =
      λ ks t h. record { columns = h.columns; hits = h.hits; misses = h.misses; stores = h.stores };
}

run_db-IsMigrated :
    (ops : List Operation) (d : Db) → IsMigrated d.tables → IsMigrated (run_db ops d).1.tables
unfolding run_db
run_db-IsMigrated [] d h = h
run_db-IsMigrated (op ∷ ops) d h =
    run_db-IsMigrated ops (call db_store op d).1 (call_keeps IsMigrated IsMigrated-Closed op d h)

query_counter-ok :
    (i : ℕ) (key : Text) (d : Db) (n : ℕ)
    → d.unreadable d.runs i ≡ false
    → lookup key d.tables.counters ≡ some n
    → query_counter i key d ≡ ok n
unfolding query_counter query row_found
query_counter-ok i key d n r p = rw (r, p) refl

some_of : (key : Text) (t : Tables) → IsCounted key t → (n : ℕ) × (lookup key t.counters ≡ some n)
some_of key t h = elim (Option-cases (lookup key t.counters)) [
  | inl missing ↦ absurd (ground (arith, h))
  | inr found ↦ found
]

-- What the report of a readable database says, next to its tables.
pub record Reports (d : Db) (s : Stats) : Type 0 where
  pub entries : s.entries ≡ length d.tables.cache_entries
  pub hits : lookup (codes "hits") d.tables.counters ≡ some s.hits
  pub misses : lookup (codes "misses") d.tables.counters ≡ some s.misses
  pub stores : lookup (codes "stores") d.tables.counters ≡ some s.stores

pub stats-ok :
    (now : Time) (d : Db) (n0 n1 n2 : ℕ)
    → ((i : ℕ) → d.unreadable d.runs i ≡ false)
    → lookup (codes "hits") d.tables.counters ≡ some n0
    → lookup (codes "misses") d.tables.counters ≡ some n1
    → lookup (codes "stores") d.tables.counters ≡ some n2
    → stats now d
      ≡ ok (record {
        entries = length d.tables.cache_entries;
        total_size = sum_by (λ e. e.size) (scan_all d.tables.cache_entries);
        hits = n0;
        misses = n1;
        stores = n2;
        days =
            sort_slice day_less
              (days_from (day_text (now - 6 * nanos_per_day)) d.tables.daily_stats);
        by_kind = kind_counts_from_map (
            add_groups
              (kind_rows (d.stops d.runs) (group_by_kind (scan_all d.tables.cache_entries) []))
              []);
      })
unfolding stats query
stats-ok now d n0 n1 n2 r p0 p1 p2 =
    rw
      (
        r 0,
        query_counter-ok 1 (codes "hits") d n0 (r 1) p0,
        query_counter-ok 2 (codes "misses") d n1 (r 2) p1,
        query_counter-ok 3 (codes "stores") d n2 (r 3) p2,
        r 4,
        r 5,
      )
      refl

stats-Reports :
    (now : Time) (d : Db)
    → IsMigrated d.tables
    → ((i : ℕ) → d.unreadable d.runs i ≡ false)
    → (s : Stats) × (stats now d ≡ ok s) × Reports d s
stats-Reports now d h r =
    let (n0, p0) = some_of (codes "hits") d.tables h.hits in
    let (n1, p1) = some_of (codes "misses") d.tables h.misses in
    let (n2, p2) = some_of (codes "stores") d.tables h.stores in
    (
      _,
      stats-ok now d n0 n1 n2 r p0 p1 p2,
      record { entries = refl; hits = p0; misses = p1; stores = p2 },
    )

-- After `Open` has yielded a database, and any calls behind it, whatever statements of theirs fail, the
-- report is made if no query fails, and its totals are the rows that the tables then have, if no other
-- error of SQLite reads like that of a column that is there.
pub stats_after_open :
    (duplicate : Text → Text) (host : Host) (random path : Text) (ops : List Operation) (now : Time)
    (d : Db)
    → ((d0 : Db) → host.sql_open (dsn random path) ≡ ok d0 → Honest d0)
    → open_db duplicate host random path ≡ ok d
    → ((i : ℕ) → (run_db ops d).1.unreadable (run_db ops d).1.runs i ≡ false)
    → (s : Stats) × (stats now (run_db ops d).1 ≡ ok s) × Reports (run_db ops d).1 s
stats_after_open duplicate host random path ops now d honest h r =
    stats-Reports now (run_db ops d).1
      (run_db-IsMigrated ops d (open_db-IsMigrated duplicate host random path d honest h)) r
