-- ===== src/Store/Db/Steps.antt =====
-- internal/store/store.go: what the methods of `DB` make of the tables when no statement fails.
use nx_cache.Common.{
  ℕ, ◌+◌, ◌≡◌, refl, ap, Option, none, some, [], ◌∷◌, Text, codes, lookup, insert, remove_all, Time,
  day_text,
}
use nx_cache.Storage.Types.{Fault}
use nx_cache.Store.Types.{no_info, fill_info}
use nx_cache.Store.Object.Run.{
  Operation, upsert, hit_at, miss_at, delete_all, ensure, update, put_back,
}
use nx_cache.Store.Interface.{call}
use nx_cache.Store.Db.Statements.{db_store}
use nx_cache.Store.Db.{
  unix, answered, exec, and_then, return_err, new_row, upsert_row, update_where, day_column,
  day_row, bump_column, bump, upsert_entry, record_hit, record_miss, delete, insert_or_ignore,
  ensure_entry, update_task_info, row_of, seed, DayRow, Tables, Db,
}

-- No statement fails.
abbrev pub Quiet : Db → Type 0
Quiet d = (n : ℕ) → d.answers n ≡ none

-- Nothing has failed, nothing will, and the tables are `t`.
pub record Gives {X : Type 0} (r : Option X × Db) (t : Tables) : Type 0 where
  pub fine : r.0 ≡ none
  pub tables : r.1.tables ≡ t
  pub quiet : Quiet r.1

exec-Gives :
    (f : Tables → Tables) (d : Db) (t : Tables) → Quiet d → d.tables ≡ t → Gives (exec f d) (f t)
unfolding exec answered
exec-Gives f d t q p = rw q (record { fine = refl; tables = ap f p; quiet = q })

and_then-Gives :
    (r : Option Text × Db) (rest : Db → Option Fault × Db) (t t' : Tables)
    → Gives r t
    → ((d : Db) → Quiet d → d.tables ≡ t → Gives (rest d) t')
    → Gives (and_then r rest) t'
unfolding and_then
and_then-Gives (some m, d) rest t t' g k = absurd (cc)
and_then-Gives (none, d) rest t t' g k = k d g.quiet g.tables

module _ (d : Db) (t : Tables) (q : Quiet d) (p : d.tables ≡ t) where
  -- A method of one statement.
  one-Gives : (f : Tables → Tables) → Gives (and_then (exec f d) return_err) (f t)
  one-Gives f =
      and_then-Gives (exec f d) return_err (f t) (f t) (exec-Gives f d t q p)
        (λ d' q' p'. record { fine = refl; tables = p'; quiet = q' })

abbrev pub bumped : Text → (DayRow → DayRow) → Time → Tables → Tables
bumped key plus at t = record t {
  counters = update_where (λ n. n + 1) key t.counters;
  daily_stats =
      insert (day_text at) (plus (day_row (lookup (day_text at) t.daily_stats))) t.daily_stats;
}

bump-Gives :
    (key : Text) (plus : DayRow → DayRow) (at : Time) (d : Db) (t : Tables)
    → day_column key ≡ some plus
    → Quiet d
    → d.tables ≡ t
    → Gives (bump key at d) (bumped key plus at t)
unfolding bump bump_column
bump-Gives key plus at d t c q p = rw c (
    and_then-Gives _ _ _ _
      (exec-Gives (λ u. record u { counters = update_where (λ n. n + 1) key u.counters }) d t q p)
      (λ d' q' p'. one-Gives d' _ q' p' _))

-- The tables behind a call of which no statement fails.
unfoldable pub changed : Operation → Tables → Tables
changed (upsert hash size at info) t =
    bumped (codes "stores") (λ r. record r { stores = r.stores + 1 }) at
      (record t {
        cache_entries =
            insert hash (upsert_row size (unix at) info (lookup hash t.cache_entries))
              t.cache_entries;
      })
changed (hit_at hash at) t =
    bumped (codes "hits") (λ r. record r { hits = r.hits + 1 }) at
      (record t {
        cache_entries =
            update_where (λ r. record r { hits = r.hits + 1; last_accessed_at = unix at }) hash
              t.cache_entries;
      })
changed (miss_at at) t = bumped (codes "misses") (λ r. record r { misses = r.misses + 1 }) at t
changed (delete_all ks) t = record t { cache_entries = remove_all ks t.cache_entries }
changed (ensure hash size at) t = record t {
  cache_entries =
      insert_or_ignore hash (new_row size (unix at) no_info) (lookup hash t.cache_entries)
        t.cache_entries;
}
changed (update hash info) t = record t {
  cache_entries =
      update_where (λ r. record r { info = fill_info r.info info }) hash t.cache_entries;
}
changed (put_back e) t = record t { cache_entries = insert e.hash (row_of e) t.cache_entries }

pub call-Gives :
    (op : Operation) (d : Db) (t : Tables)
    → Quiet d
    → d.tables ≡ t
    → Gives (call db_store op d) (changed op t)
unfolding call upsert_entry record_hit record_miss delete ensure_entry update_task_info seed
    day_column changed remove_all
call-Gives (upsert hash size at info) d t q p =
    and_then-Gives _ _ _ _ (exec-Gives _ d t q p)
      (λ d' q' p'. bump-Gives (codes "stores") _ at d' _ refl q' p')
call-Gives (hit_at hash at) d t q p =
    and_then-Gives _ _ _ _ (exec-Gives _ d t q p)
      (λ d' q' p'. bump-Gives (codes "hits") _ at d' _ refl q' p')
call-Gives (miss_at at) d t q p = bump-Gives (codes "misses") _ at d t refl q p
call-Gives (delete_all []) d t q p = record { fine = refl; tables = p; quiet = q }
call-Gives (delete_all (k ∷ ks)) d t q p = one-Gives d t q p _
call-Gives (ensure hash size at) d t q p = one-Gives d t q p _
call-Gives (update hash info) d t q p = one-Gives d t q p _
call-Gives (put_back e) d t q p = one-Gives d t q p _
