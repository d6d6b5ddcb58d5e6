-- ===== src/Store/Db/Statements.antt =====
-- internal/store/store.go: `DB` as a `Store`, and what holds of the tables behind each of its methods,
-- wherever it ended.
use nx_cache.Common.{
  ◌+◌, ◌≡◌, refl, Option, none, some, List, [], ◌∷◌, arith, if◌then◌else◌, Text, codes, text_eq,
  text_eq_iff, Assoc, lookup, insert, remove_all, keys, map_option, Time, day_text,
}
use nx_cache.Storage.Types.{Fault}
use nx_cache.Store.Interface.{call, Store}
use nx_cache.Store.Object.Run.{
  Operation, upsert, hit_at, miss_at, delete_all, ensure, update, put_back,
}
use nx_cache.Store.Db.Queries
use nx_cache.Store.Db.{
  answered, exec, and_then, update_where, day_column, bump_column, bump, upsert_entry, record_hit,
  record_miss, delete, insert_or_ignore, ensure_entry, update_task_info, seed, Row, DayRow, Tables,
  Db,
}
use nx_cache.Store.Db

abbrev pub db_store : Store
db_store = record {
  State = Db;
  upsert_entry = Db.upsert_entry;
  record_hit = Db.record_hit;
  record_miss = Db.record_miss;
  list = Queries.list;
  list_older_than = Queries.list_older_than;
  delete = Db.delete;
  stats = Queries.stats;
  ensure_entry = Db.ensure_entry;
  update_task_info = Db.update_task_info;
  seed = Db.seed;
}

-- A statement keeps what its change keeps, and a method what its statements keep.
module _ {ℓ} (P : Tables → Type ℓ) where
  answered_keeps :
      (f : Tables → Tables) (m : Option Text) (d : Db)
      → P d.tables
      → P (f d.tables)
      → P (answered f m d).1.tables
  unfolding answered
  answered_keeps f none d h k = k
  answered_keeps f (some m) d h k = h

  pub exec_keeps :
      (f : Tables → Tables) (d : Db) → P d.tables → P (f d.tables) → P (exec f d).1.tables
  unfolding exec
  exec_keeps f d h k = answered_keeps f (d.answers d.runs) d h k

  pub and_then_keeps :
      (r : Option Text × Db) (rest : Db → Option Fault × Db)
      → P r.1.tables
      → ((d : Db) → P d.tables → P (rest d).1.tables)
      → P (and_then r rest).1.tables
  unfolding and_then
  and_then_keeps (some m, d) rest h k = h
  and_then_keeps (none, d) rest h k = k d h

-- The keys are those before.
pub keys-update_where {ℓ} :
    {V : Type ℓ}
    → (f : V → V) (key : Text) (pairs : Assoc V) → keys (update_where f key pairs) ≡ keys pairs
unfolding update_where
keys-update_where f key [] = refl
keys-update_where f key ((j, val) ∷ pairs) = ground (arith, keys-update_where f key pairs)

pub lookup-update_where {ℓ} :
    {V : Type ℓ}
    → (f : V → V) (key j : Text) (pairs : Assoc V)
    → lookup j (update_where f key pairs)
      ≡ (if text_eq key j then map_option f (lookup j pairs) else lookup j pairs)
unfolding lookup update_where
lookup-update_where f key j [] = ground arith
lookup-update_where f key j ((i, val) ∷ pairs) = ground (
  arith,
  text_eq_iff key j,
  text_eq_iff i key,
  text_eq_iff i j,
  lookup-update_where f key j pairs,
)

-- What every change of the tables that the methods make keeps.
pub record Closed {ℓ} (P : Tables → Type ℓ) : Type ℓ where
  pub counted :
      (key : Text) (t : Tables)
      → P t
      → P (record t { counters = update_where (λ n. n + 1) key t.counters })
  pub dated : (days : Assoc DayRow) (t : Tables) → P t → P (record t { daily_stats = days })
  pub inserted :
      (hash : Text) (r : Row) (t : Tables)
      → P t
      → P (record t { cache_entries = insert hash r t.cache_entries })
  pub updated :
      (f : Row → Row) (hash : Text) (t : Tables)
      → P t
      → P (record t { cache_entries = update_where f hash t.cache_entries })
  pub removed :
      (ks : List Text) (t : Tables)
      → P t
      → P (record t { cache_entries = remove_all ks t.cache_entries })

module _ {ℓ} (P : Tables → Type ℓ) (c : Closed P) where
  bump_column_keeps :
      (day : Text) (plus : Option (DayRow → DayRow)) (d : Db)
      → P d.tables
      → P (bump_column day plus d).1.tables
  unfolding bump_column
  bump_column_keeps day none d h = h
  bump_column_keeps day (some plus) d h =
      and_then_keeps P _ _ (exec_keeps P _ d h (c.dated _ d.tables h)) (λ d' k. k)

  bump_keeps : (key : Text) (at : Time) (d : Db) → P d.tables → P (bump key at d).1.tables
  unfolding bump
  bump_keeps key at d h =
      and_then_keeps P _ _ (exec_keeps P _ d h (c.counted key d.tables h))
        (λ d'. bump_column_keeps (day_text at) (day_column key) d')

  ignored_keeps :
      (hash : Text) (r : Row) (known : Option Row) (t : Tables)
      → P t
      → P (record t { cache_entries = insert_or_ignore hash r known t.cache_entries })
  unfolding insert_or_ignore
  ignored_keeps hash r none t h = c.inserted hash r t h
  ignored_keeps hash r (some old) t h = h

  -- Behind a method the tables have what they had before it, if every change keeps it.
  pub call_keeps : (op : Operation) (d : Db) → P d.tables → P (call db_store op d).1.tables
  unfolding call upsert_entry record_hit record_miss delete ensure_entry update_task_info seed
  call_keeps (upsert hash size at info) d h =
      and_then_keeps P _ _ (exec_keeps P _ d h (c.inserted hash _ d.tables h))
        (λ d'. bump_keeps (codes "stores") at d')
  call_keeps (hit_at hash at) d h =
      and_then_keeps P _ _ (exec_keeps P _ d h (c.updated _ hash d.tables h))
        (λ d'. bump_keeps (codes "hits") at d')
  call_keeps (miss_at at) d h = bump_keeps (codes "misses") at d h
  call_keeps (delete_all []) d h = h
  call_keeps (delete_all (k ∷ ks)) d h =
      and_then_keeps P _ _ (exec_keeps P _ d h (c.removed (k ∷ ks) d.tables h)) (λ d' k. k)
  call_keeps (ensure hash size at) d h =
      and_then_keeps P _ _
        (exec_keeps P _ d h (ignored_keeps hash _ (lookup hash d.tables.cache_entries) d.tables h))
        (λ d' k. k)
  call_keeps (update hash info) d h =
      and_then_keeps P _ _ (exec_keeps P _ d h (c.updated _ hash d.tables h)) (λ d' k. k)
  call_keeps (put_back e) d h =
      and_then_keeps P _ _ (exec_keeps P _ d h (c.inserted e.hash _ d.tables h)) (λ d' k. k)
