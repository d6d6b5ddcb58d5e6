-- ===== src/Store/Db.antt =====
-- internal/store/store.go: `DB`, the catalog in SQLite. Each statement is the change of the tables, or
-- the read of them, that its text says; what SQLite answers to it (an error or none) is data of the
-- state, so that every theorem holds for all answers. A statement is applied whole or not at all.
pub mod Like
pub mod Queries
pub mod Migrate
pub mod Statements
pub mod Contract
pub mod Steps
pub mod Mirror
pub mod Migrated
pub mod Reported
pub mod Search
use nx_cache.Common.{
  ℕ, ◌+◌, ◌-◌, ◌*◌, ◌/◌, ap, Bool, not, Option, none, some, List, [], ◌∷◌, if◌then◌else◌, any, Text,
  codes, text_eq, Assoc, lookup, insert, remove, remove_all, Time, second, day_text,
}
use nx_cache.Storage.Types.{Fault, failure, ok, err}
use nx_cache.Store.Types.{no_info, fill_info, TaskInfo, Entry, Stats}
use nx_cache.Store.Kinds.{}
use nx_cache.Store.Object.{hit, values, stats}
use nx_cache.Store.Db.Like.{}

-- A row of `cache_entries`, under its primary key, the hash. The times are `Unix()`: whole seconds,
-- here counted from the year 1, which differs by a constant.
pub record Row : Type 0 where
  pub size : ℕ
  pub created_at : ℕ
  pub last_accessed_at : ℕ
  pub hits : ℕ
  pub info : TaskInfo

-- A row of `daily_stats`, under its primary key, the day.
pub record DayRow : Type 0 where
  pub hits : ℕ
  pub misses : ℕ
  pub stores : ℕ

-- The rows stand in the order in which SQLite yields them where no ORDER BY decides.
pub record Tables : Type 0 where
  -- The columns of `cache_entries`; none where the table does not exist.
  pub columns : List Text
  pub cache_entries : Assoc Row
  pub counters : Assoc ℕ
  pub daily_stats : Assoc DayRow

-- `answers` holds SQLite's answer to the n-th statement, `unreadable` whether the i-th query of a
-- method fails that is called when `runs` statements have been run, and `stops` after how many rows
-- the rows of `Stats` by kind end with an error, if they do.
pub record Db : Type 0 where
  pub tables : Tables
  pub runs : ℕ
  pub answers : ℕ → Option Text
  pub unreadable : ℕ → ℕ → Bool
  pub stops : ℕ → Option ℕ

-- at.Unix()
abbrev pub unix : Time → ℕ
unix at = at / second

-- time.Unix(s, 0).UTC()
abbrev pub time_unix : ℕ → Time
time_unix s = s * second

-- ExecContext
unfoldable pub answered : (Tables → Tables) → Option Text → Db → Option Text × Db
answered f (some message) d = (some message, record d { runs = d.runs + 1 })
answered f none d = (none, record d { runs = d.runs + 1; tables = f d.tables })

unfoldable pub exec : (Tables → Tables) → Db → Option Text × Db
unfolding answered
exec f d = answered f (d.answers d.runs) d

-- if err != nil { return err }, then the rest of the method
unfoldable pub and_then : Option Text × Db → (Db → Option Fault × Db) → Option Fault × Db
and_then (some message, d) rest = (some failure, d)
and_then (none, d) rest = rest d

-- return err
abbrev pub return_err : Db → Option Fault × Db
return_err d = (none, d)

-- The VALUES of a row that is inserted.
abbrev pub new_row : ℕ → ℕ → TaskInfo → Row
new_row size at info = record {
  size = size;
  created_at = at;
  last_accessed_at = at;
  hits = 0;
  info = info;
}

-- SET col = CASE WHEN excluded.col = '' THEN col ELSE excluded.col END, for the four columns, is
-- `fill_info`.
unfoldable pub upsert_row : ℕ → ℕ → TaskInfo → Option Row → Row
unfolding fill_info
upsert_row size at info none = new_row size at info
upsert_row size at info (some row) = record row { size = size; info = fill_info row.info info }

-- UPDATE ... WHERE key = ?
unfoldable pub update_where {ℓ} : {V : Type ℓ} → (V → V) → Text → Assoc V → Assoc V
update_where f key [] = []
update_where f key ((j, val) ∷ pairs) =
    let rest = update_where f key pairs in
    if text_eq j key then (j, f val) ∷ rest else (j, val) ∷ rest

-- The switch of `bump`: ON CONFLICT(day) DO UPDATE SET col = col + 1, by the key.
unfoldable pub day_column : Text → Option (DayRow → DayRow)
unfolding text_eq
day_column key =
    if text_eq key (codes "hits")
    then some (λ r. record r { hits = r.hits + 1 })
    else if text_eq key (codes "misses")
    then some (λ r. record r { misses = r.misses + 1 })
    else if text_eq key (codes "stores")
    then some (λ r. record r { stores = r.stores + 1 })
    else none

abbrev pub no_day : DayRow
no_day = record { hits = 0; misses = 0; stores = 0 }

abbrev pub day_row : Option DayRow → DayRow
day_row none = no_day
day_row (some r) = r

unfoldable pub bump_column : Text → Option (DayRow → DayRow) → Db → Option Fault × Db
bump_column day none d = (some failure, d)
bump_column day (some plus) d =
    and_then
      (exec
        (λ t. record t {
          daily_stats = insert day (plus (day_row (lookup day t.daily_stats))) t.daily_stats;
        })
        d)
      return_err

unfoldable pub bump : Text → Time → Db → Option Fault × Db
unfolding bump_column
bump key at d =
    and_then (exec (λ t. record t { counters = update_where (λ n. n + 1) key t.counters }) d)
      (bump_column (day_text at) (day_column key))

unfoldable pub upsert_entry : Text → ℕ → Time → TaskInfo → Db → Option Fault × Db
upsert_entry hash size at info d =
    and_then
      (exec
        (λ t. record t {
          cache_entries =
              insert hash (upsert_row size (unix at) info (lookup hash t.cache_entries))
                t.cache_entries;
        })
        d)
      (bump (codes "stores") at)

unfoldable pub record_hit : Text → Time → Db → Option Fault × Db
record_hit hash at d =
    and_then
      (exec
        (λ t. record t {
          cache_entries =
              update_where (λ r. record r { hits = r.hits + 1; last_accessed_at = unix at }) hash
                t.cache_entries;
        })
        d)
      (bump (codes "hits") at)

unfoldable pub record_miss : Time → Db → Option Fault × Db
record_miss at d = bump (codes "misses") at d

-- DELETE ... WHERE hash IN (...)
unfoldable pub delete : List Text → Db → Option Fault × Db
delete [] d = (none, d)
delete (h ∷ hashes) d =
    and_then (exec (λ t. record t { cache_entries = remove_all (h ∷ hashes) t.cache_entries }) d)
      return_err

-- INSERT OR IGNORE; the columns that it does not name have their defaults.
unfoldable pub insert_or_ignore {ℓ} : {V : Type ℓ} → Text → V → Option V → Assoc V → Assoc V
insert_or_ignore key val none pairs = insert key val pairs
insert_or_ignore key val (some old) pairs = pairs

unfoldable pub ensure_entry : Text → ℕ → Time → Db → Option Fault × Db
unfolding insert_or_ignore
ensure_entry hash size at d =
    and_then
      (exec
        (λ t. record t {
          cache_entries =
              insert_or_ignore hash (new_row size (unix at) no_info) (lookup hash t.cache_entries)
                t.cache_entries;
        })
        d)
      return_err

unfoldable pub update_task_info : Text → TaskInfo → Db → Option Fault × Db
unfolding fill_info
update_task_info hash info d =
    and_then
      (exec
        (λ t. record t {
          cache_entries =
              update_where (λ r. record r { info = fill_info r.info info }) hash t.cache_entries;
        })
        d)
      return_err

-- The values of an entry, as `Seed` binds them.
unfoldable pub row_of : Entry → Row
row_of e = record {
  size = e.size;
  created_at = unix e.created_at;
  last_accessed_at = unix e.last_accessed_at;
  hits = e.hits;
  info = e.info;
}

unfoldable pub seed : Entry → Db → Option Fault × Db
unfolding row_of
seed e d =
    and_then (exec (λ t. record t { cache_entries = insert e.hash (row_of e) t.cache_entries }) d)
      return_err
