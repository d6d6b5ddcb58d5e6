-- ===== src/Store/Db/Mirror.antt =====
-- internal/store/store.go and internal/store/object.go: the two catalogs side by side.
pub mod Rows
pub mod Runs
pub mod Report
use nx_cache.Common.{
  ℕ, ◌+◌, ◌≡◌, refl, ap, ◌∙◌, Bool, true, false, ◌&&◌, Option, none, some, List, [], ◌∷◌, ◌++◌,
  arith, ltb, ◌==◌, Text, codes, text_eq, text_eq_iff, is_empty, Assoc, lookup, insert, remove_all,
  Distinct, keys, lookup_absent, map_values, map_option, lookup-map_values, insert-map_values,
  remove_all-map_values, Time, is_zero, day_text,
}
use nx_cache.Storage.Types.{is_some, Fault}
use nx_cache.Store.Types.{no_info, fill_info, TaskInfo, Entry, DayStat}
use nx_cache.Store.Object.Run.{
  perform, run, Operation, upsert, hit_at, miss_at, delete_all, ensure, update, put_back,
}
use nx_cache.Store.Object.Entries.{perform-IsKeyed, IsKeyed}
use nx_cache.Store.Object.{
  bump_total, bump_day, day_or_new, bump_at, bump_locked, entry_or_zero, upserted, upsert_entry,
  hit, record_hit, record_miss, delete, ensure_known, ensure_entry, update_known, update_task_info,
  seed, Catalog, Counter, hits_key, misses_key, stores_key,
}
use nx_cache.Store.Interface.{call}
use nx_cache.Store.Db.Migrate.{first_columns, added_columns}
use nx_cache.Store.Db.Statements.{db_store}
use nx_cache.Store.Db.Steps.{Quiet, bumped, changed, call-Gives}
use nx_cache.Store.Db.{
  unix, new_row, upsert_row, update_where, no_day, day_row, insert_or_ignore, row_of, Row, DayRow,
  Tables, Db,
}

-- The row of a day; a nil pointer counts as a day without events.
unfoldable pub day_of : Option DayStat → DayRow
day_of none = no_day
day_of (some d) = record { hits = d.hits; misses = d.misses; stores = d.stores }

-- The tables that hold what a catalog in memory holds, times cut to seconds.
unfoldable pub tables_of : Catalog → Tables
unfolding row_of day_of
tables_of o = record {
  columns = first_columns ++ added_columns;
  cache_entries = map_values row_of o.entries;
  counters =
      (codes "hits", o.stats.hits)
      ∷ (codes "misses", o.stats.misses)
      ∷ (codes "stores", o.stats.stores)
      ∷ [];
  daily_stats = map_values day_of o.stats.days;
}

-- Where the two catalogs do the same: not for the empty hash, a hit of an unknown hash, a known entry
-- of the zero time that is uploaded again, and a known entry of size 0 whose size is found.
abbrev pub Agrees : Operation → Catalog → Type 0
Agrees (upsert hash size at info) o =
    (is_empty hash ≡ false)
    × ((e : Entry) → lookup hash o.entries ≡ some e → is_zero e.created_at ≡ false)
Agrees (hit_at hash at) o = (is_empty hash ≡ false) × (is_some (lookup hash o.entries) ≡ true)
Agrees (ensure hash size at) o =
    (e : Entry) → lookup hash o.entries ≡ some e → (e.size == 0 && ltb 0 size) ≡ false
Agrees _ o = Unit

abbrev pub counter_key : Counter → Text
counter_key hits_key = codes "hits"
counter_key misses_key = codes "misses"
counter_key stores_key = codes "stores"

abbrev pub plus_one : Counter → DayRow → DayRow
plus_one hits_key r = record r { hits = r.hits + 1 }
plus_one misses_key r = record r { misses = r.misses + 1 }
plus_one stores_key r = record r { stores = r.stores + 1 }

day_row-bump :
    (key : Counter) (day : Text) (known : Option (Option DayStat))
    → plus_one key (day_row (map_option day_of known))
      ≡ day_of (some (bump_day key (day_or_new day known)))
unfolding bump_day day_or_new day_of
day_row-bump hits_key day none = refl
day_row-bump hits_key day (some none) = refl
day_row-bump hits_key day (some (some d)) = refl
day_row-bump misses_key day none = refl
day_row-bump misses_key day (some none) = refl
day_row-bump misses_key day (some (some d)) = refl
day_row-bump stores_key day none = refl
day_row-bump stores_key day (some none) = refl
day_row-bump stores_key day (some (some d)) = refl

days-bump :
    (key : Counter) (day : Text) (days : Assoc (Option DayStat))
    → insert day
        (plus_one key (day_row (lookup day (map_values day_of days))))
        (map_values day_of days)
      ≡ map_values day_of (insert day (some (bump_day key (day_or_new day (lookup day days)))) days)
days-bump key day days =
    ap (λ r. insert day (plus_one key (day_row r)) (map_values day_of days))
      (lookup-map_values day_of day days)
    ∙ ap (λ r. insert day r (map_values day_of days)) (day_row-bump key day (lookup day days))
    ∙ insert-map_values day_of day (some (bump_day key (day_or_new day (lookup day days)))) days

counters-bump :
    (key : Counter) (o : Catalog)
    → update_where (λ n. n + 1) (counter_key key) (tables_of o).counters
      ≡ (tables_of (record o { stats = bump_total key o.stats })).counters
unfolding update_where tables_of bump_total text_eq
counters-bump hits_key o = refl
counters-bump misses_key o = refl
counters-bump stores_key o = refl

pub bumped-tables_of :
    (key : Counter) (at : Time) (o : Catalog)
    → bumped (counter_key key) (plus_one key) at (tables_of o)
      ≡ tables_of (record o { stats = bump_locked key at o.stats })
unfolding tables_of bump_locked bump_at
bumped-tables_of key at o =
    ap
      (λ c. record (tables_of o) {
        counters = c;
        daily_stats = (bumped (counter_key key) (plus_one key) at (tables_of o)).daily_stats;
      })
      (counters-bump key o)
    ∙ ap
        (λ days. record (tables_of o) {
          counters = (tables_of (record o { stats = bump_total key o.stats })).counters;
          daily_stats = days;
        })
        (days-bump key (day_text at) o.stats.days)
