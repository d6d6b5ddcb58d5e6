-- ===== src/Store/Db/Queries.antt =====
-- internal/store/store.go: the methods of `DB` that only read.
use nx_cache.Common.{
  ℕ, ◌+◌, ◌-◌, ◌*◌, Bool, ◌||◌, Option, none, some, List, [], ◌∷◌, ◌++◌, ltb, ◌==◌, if◌then◌else◌,
  length, take, drop, filter, sum_by, Text, codes, is_empty, trim_space, Assoc, lookup, insert,
  Int64, natural, negative, Time, nanos_per_day, day_text, text_lt, sort_slice,
}
use nx_cache.Storage.Types.{Result, failure, ok, err}
use nx_cache.Store.Types.{Entry, DayStat, Stats}
use nx_cache.Store.Kinds.{or_zero, kind_counts_from_map, kind_or_unknown}
use nx_cache.Store.Object.{newer, day_less}
use nx_cache.Store.Db.Like.{like, like_contains}
use nx_cache.Store.Db.{unix, time_unix, Row, DayRow, Tables, Db}

-- rows.Scan into an entry
unfoldable pub scan_row : Text → Row → Entry
scan_row hash r = record {
  hash = hash;
  size = r.size;
  created_at = time_unix r.created_at;
  last_accessed_at = time_unix r.last_accessed_at;
  hits = r.hits;
  info = r.info;
}

-- SELECT ... FROM cache_entries, each row scanned
unfoldable pub scan_all : Assoc Row → List Entry
unfolding scan_row
scan_all [] = []
scan_all ((hash, r) ∷ rows) = scan_row hash r ∷ scan_all rows

-- The i-th query of a method.
unfoldable pub query {ℓ} : {A : Type ℓ} → (i : ℕ) → (Tables → A) → Db → Result A
query i f d = if d.unreadable d.runs i then err failure else ok (f d.tables)

-- if err != nil { return err } between two queries of a method
infixl 5 ◌>>=◌
abbrev pub ◌>>=◌ {ℓ} : {A B : Type ℓ} → Result A → (A → Result B) → Result B
◌>>=◌ (ok a) f = f a
◌>>=◌ (err e) f = err e

-- The WHERE clause of `List`, on a row that is scanned.
unfoldable pub where_like : Text → Entry → Bool
unfolding like
where_like pattern e =
    like pattern e.hash
    || like pattern e.info.project
    || like pattern e.info.target
    || like pattern e.info.kind
    || like pattern (e.info.project ++ b':' ∷ e.info.target)

unfoldable pub selected : Text → List Entry → List Entry
unfolding trim_space like_contains where_like
selected q es =
    let trimmed = trim_space q in
    if is_empty trimmed then es else filter (where_like (like_contains trimmed)) es

-- OFFSET: a negative one is 0.
abbrev pub offset_rows : Int64 → ℕ
offset_rows (natural n) = n
offset_rows (negative n) = 0

-- A limit of 0 stands for every limit that is not positive.
unfoldable pub list : Text → ℕ → Int64 → Db → Result (List Entry × ℕ)
unfolding scan_all selected query
list q limit offset d = do
  let limit' = if limit == 0 then 25 else limit
  total ← query 0 (λ t. length (selected q (scan_all t.cache_entries))) d
  entries ←
      query 1
        (λ t.
          take limit'
            (drop (offset_rows offset) (sort_slice newer (selected q (scan_all t.cache_entries)))))
        d
  ok (entries, total)

unfoldable pub list_older_than : Time → Db → Result (List Entry)
unfolding scan_all
list_older_than cutoff d =
    query 0
      (λ t. filter (λ e. ltb e.created_at (time_unix (unix cutoff))) (scan_all t.cache_entries)) d

-- Scan of a row that may be missing: sql.ErrNoRows
unfoldable pub row_found {ℓ} : {A : Type ℓ} → Option A → Result A
row_found none = err failure
row_found (some a) = ok a

unfoldable pub query_counter : ℕ → Text → Db → Result ℕ
unfolding query row_found
query_counter i key d = query i (λ t. lookup key t.counters) d >>= row_found

-- GROUP BY kind, and the loop that adds the groups up.
unfoldable pub group_by_kind : List Entry → Assoc ℕ → Assoc ℕ
group_by_kind [] groups = groups
group_by_kind (e ∷ es) groups =
    group_by_kind es (insert e.info.kind (or_zero (lookup e.info.kind groups) + 1) groups)

unfoldable pub add_groups : Assoc ℕ → Assoc ℕ → Assoc ℕ
add_groups [] counts = counts
add_groups ((kind, n) ∷ groups) counts =
    let known = kind_or_unknown kind in
    add_groups groups (insert known (or_zero (lookup known counts) + n) counts)

-- The loop of `Stats` over the groups ends at an error as it ends behind the last row: it does not ask
-- `kindRows.Err()`.
unfoldable pub kind_rows : Option ℕ → Assoc ℕ → Assoc ℕ
kind_rows none groups = groups
kind_rows (some n) groups = take n groups

-- WHERE day >= ?, each row scanned
unfoldable pub days_from : Text → Assoc DayRow → List DayStat
days_from since [] = []
days_from since ((day, r) ∷ days) =
    let rest = days_from since days in
    if text_lt day since
    then rest
    else record { day = day; hits = r.hits; misses = r.misses; stores = r.stores } ∷ rest

-- SELECT COUNT(*), COALESCE(SUM(size), 0)
abbrev pub count_and_size : Tables → ℕ × ℕ
count_and_size t = (length t.cache_entries, sum_by (λ e. e.size) (scan_all t.cache_entries))

-- Stats, at the time `now`
unfoldable pub stats : Time → Db → Result Stats
unfolding query query_counter group_by_kind kind_rows add_groups days_from scan_all
stats now d = do
  sums ← query 0 count_and_size d
  hits ← query_counter 1 (codes "hits") d
  misses ← query_counter 2 (codes "misses") d
  stores ← query_counter 3 (codes "stores") d
  groups ← query 4 (λ t. group_by_kind (scan_all t.cache_entries) []) d
  let since = day_text (now - 6 * nanos_per_day)
  days ← query 5 (λ t. sort_slice day_less (days_from since t.daily_stats)) d
  ok (record {
    entries = sums.0;
    total_size = sums.1;
    hits = hits;
    misses = misses;
    stores = stores;
    days = days;
    by_kind = kind_counts_from_map (add_groups (kind_rows (d.stops d.runs) groups) []);
  })
