-- ===== src/Store/Object.antt =====
-- internal/store/object.go: the catalog that is kept in memory. Each method is a function of the
-- fields that `mu` guards; the times and the query are its arguments.
pub mod Run
pub mod Counters
pub mod Entries
pub mod Listing
pub mod Flush
use nx_cache.Common.{
  ℕ, Int64, natural, negative, zero, ◌-◌, ◌+◌, ◌/◌, ◌*◌, ap, Bool, true, false, ◌&&◌, Option, none,
  some, List, [], ◌∷◌, map, ltb, leb, ◌^◌, ◌==◌, if◌then◌else◌, length, take, drop, filter, sum_by,
  Text, is_empty, cut, Assoc, lookup, insert, remove, remove_all, mem, keys, Time, is_zero,
  nanos_per_day, day_text, text_lt, sort_slice,
}
use nx_cache.Storage.Types.{Fault, Result, Object, failure, ok, err}
use nx_cache.Store.Types.{
  no_entry, fill_info, matches_query, Letters, TaskInfo, Entry, DayStat, Stats,
}
use nx_cache.Store.Kinds.{or_zero, kind_counts_from_map, count_kinds}

-- A pointer to a day's record may be nil in a snapshot that was read.
pub record ObjectStats : Type 0 where
  pub hits : ℕ
  pub misses : ℕ
  pub stores : ℕ
  pub days : Assoc (Option DayStat)

pub record Catalog : Type 0 where
  pub entries : Assoc Entry
  pub stats : ObjectStats
  pub dirty : Bool
  pub load_failed : Bool

abbrev pub no_stats : ObjectStats
no_stats = record { hits = 0; misses = 0; stores = 0; days = [] }

-- NewObject
abbrev pub new_object : Catalog
new_object = record { entries = []; stats = no_stats; dirty = false; load_failed = false }

-- The strings "hits", "misses" and "stores".
pub data Counter : Type 0 where
  hits_key misses_key stores_key : Counter

unfoldable pub bump_total : Counter → ObjectStats → ObjectStats
bump_total hits_key s = record s { hits = s.hits + 1 }
bump_total misses_key s = record s { misses = s.misses + 1 }
bump_total stores_key s = record s { stores = s.stores + 1 }

unfoldable pub bump_day : Counter → DayStat → DayStat
bump_day hits_key d = record d { hits = d.hits + 1 }
bump_day misses_key d = record d { misses = d.misses + 1 }
bump_day stores_key d = record d { stores = d.stores + 1 }

-- The record of a day, made anew where the map has none or nil.
unfoldable pub day_or_new : Text → Option (Option DayStat) → DayStat
day_or_new day none = record { day = day; hits = 0; misses = 0; stores = 0 }
day_or_new day (some none) = record { day = day; hits = 0; misses = 0; stores = 0 }
day_or_new day (some (some d)) = d

-- bumpLocked, at the text of the day
unfoldable pub bump_at : Counter → Text → ObjectStats → ObjectStats
unfolding bump_total bump_day day_or_new
bump_at key day s =
    let s' = bump_total key s in
    record s' {
      days = insert day (some (bump_day key (day_or_new day (lookup day s.days)))) s.days;
    }

unfoldable pub bump_locked : Counter → Time → ObjectStats → ObjectStats
bump_locked key at s = bump_at key (day_text at) s

abbrev pub entry_or_zero : Option Entry → Entry
entry_or_zero none = no_entry
entry_or_zero (some e) = e

unfoldable pub upserted : Text → ℕ → Time → TaskInfo → Entry → Entry
upserted hash size at info e =
    let e1 : Entry =
      if is_empty e.hash
      then record no_entry { hash = hash; created_at = at; last_accessed_at = at }
      else e in
    record e1 {
      size = size;
      created_at = (if is_zero e1.created_at then at else e1.created_at);
      info = fill_info e1.info info;
    }

unfoldable pub upsert_entry : Text → ℕ → Time → TaskInfo → Catalog → Option Fault × Catalog
unfolding upserted
upsert_entry hash size at info o = (
  none,
  record o {
    entries =
        insert hash (upserted hash size at info (entry_or_zero (lookup hash o.entries))) o.entries;
    stats = bump_locked stores_key at o.stats;
    dirty = true;
  },
)

unfoldable pub hit : Text → Time → Entry → Entry
hit hash at e =
    let e1 : Entry =
      if is_empty e.hash then record no_entry { hash = hash; created_at = at } else e in
    record e1 { hits = e1.hits + 1; last_accessed_at = at }

unfoldable pub record_hit : Text → Time → Catalog → Option Fault × Catalog
unfolding hit
record_hit hash at o = (
  none,
  record o {
    entries = insert hash (hit hash at (entry_or_zero (lookup hash o.entries))) o.entries;
    stats = bump_locked hits_key at o.stats;
    dirty = true;
  },
)

unfoldable pub record_miss : Time → Catalog → Option Fault × Catalog
record_miss at o = (none, record o { stats = bump_locked misses_key at o.stats; dirty = true })

unfoldable pub delete : List Text → Catalog → Option Fault × Catalog
delete [] o = (none, o)
delete (h ∷ hashes) o =
    (none, record o { entries = remove_all (h ∷ hashes) o.entries; dirty = true })

-- Only the size of an entry that has none is filled in.
unfoldable pub ensure_known : Text → ℕ → Time → Option Entry → Catalog → Catalog
ensure_known hash size at none o = record o {
  entries =
      insert hash
        (record no_entry { hash = hash; size = size; created_at = at; last_accessed_at = at })
        o.entries;
  dirty = true;
}
ensure_known hash size at (some e) o =
    if e.size == 0 && ltb 0 size
    then record o { entries = insert hash (record e { size = size }) o.entries; dirty = true }
    else o

unfoldable pub ensure_entry : Text → ℕ → Time → Catalog → Option Fault × Catalog
unfolding ensure_known
ensure_entry hash size at o = (none, ensure_known hash size at (lookup hash o.entries) o)

unfoldable pub update_known : Text → TaskInfo → Option Entry → Catalog → Catalog
update_known hash info none o = o
update_known hash info (some e) o = record o {
  entries = insert hash (record e { info = fill_info e.info info }) o.entries;
  dirty = true;
}

unfoldable pub update_task_info : Text → TaskInfo → Catalog → Option Fault × Catalog
unfolding update_known
update_task_info hash info o = (none, update_known hash info (lookup hash o.entries) o)

unfoldable pub seed : Entry → Catalog → Option Fault × Catalog
seed e o = (none, record o { entries = insert e.hash e o.entries; dirty = true })

abbrev pub values {ℓ} : {V : Type ℓ} → Assoc V → List V
values [] = []
values ((k, v) ∷ m) = v ∷ values m

-- a.CreatedAt.After(b.CreatedAt)
abbrev pub newer : Entry → Entry → Bool
newer a b = ltb b.created_at a.created_at

unfoldable pub all_entries : Catalog → List Entry
all_entries o = sort_slice newer (values o.entries)

-- The entries of a query: all of them for an empty one.
unfoldable pub matching : Letters → Text → List Entry → List Entry
unfolding matches_query
matching u query es =
    let q = u.lower (u.trim query) in
    if is_empty q then es else filter (λ e. matches_query u e q) es

-- entries[offset:end] with its two clamps; a limit of 0 stands for every limit that is not positive,
-- and so for 25. A slice with a negative bound is a panic, `none`: the offset may be negative, and so
-- may be the end, where the sum wraps at 2 ^ 63.
unfoldable pub page : (limit : ℕ) → (offset : Int64) → List Entry → Option (List Entry)
page limit (negative n) es = none
page limit (natural offset) es =
    let total = length es in
    let limit' = if limit == 0 then 25 else limit in
    let offset' = if ltb total offset then total else offset in
    let end = if ltb total (offset' + limit') then total else offset' + limit' in
    if leb (2 ^ 63) (offset' + limit') then none else some (drop offset' (take end es))

-- The server answers a panic of the method as it answers an error of it.
abbrev pub page_or_panic : Option (List Entry) → ℕ → Result (List Entry × ℕ)
page_or_panic none total = err failure
page_or_panic (some es) total = ok (es, total)

unfoldable pub list : Letters → Text → ℕ → Int64 → Catalog → Result (List Entry × ℕ)
unfolding all_entries matching page
list u query limit offset o =
    let es = matching u query (all_entries o) in page_or_panic (page limit offset es) (length es)

unfoldable pub list_older_than : Time → Catalog → Result (List Entry)
unfolding all_entries
list_older_than cutoff o = ok (filter (λ e. ltb e.created_at cutoff) (all_entries o))

abbrev pub day_less : DayStat → DayStat → Bool
day_less a b = text_lt a.day b.day

-- The days from `since` on, under their keys.
unfoldable pub days_since : Text → Assoc (Option DayStat) → List DayStat
days_since since [] = []
days_since since ((day, none) ∷ days) = days_since since days
days_since since ((day, some st) ∷ days) =
    let rest = days_since since days in
    if text_lt day since then rest else record st { day = day } ∷ rest

-- Stats, at the time `now`
unfoldable pub stats : Time → Catalog → Result Stats
unfolding all_entries days_since
stats now o =
    let es = all_entries o in
    let since = day_text (now - 6 * nanos_per_day) in
    ok (record {
      entries = length es;
      total_size = sum_by (λ e. e.size) es;
      hits = o.stats.hits;
      misses = o.stats.misses;
      stores = o.stats.stores;
      days = sort_slice day_less (days_since since o.stats.days);
      by_kind = kind_counts_from_map (count_kinds es []);
    })
