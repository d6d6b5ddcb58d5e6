-- ===== src/Store/Db/Mirror/Report.antt =====
-- internal/store/store.go and internal/store/object.go: the reports of the two catalogs.
use nx_cache.Common.{
  ℕ, suc, ◌+◌, ◌-◌, ◌*◌, ◌≡◌, refl, sym, ap, ◌∙◌, true, false, false≢true, Option, none, some, List,
  [], ◌∷◌, arith, if◌then◌else◌, length, sum_by, Text, codes, text_eq, Assoc, lookup, insert,
  Distinct, keys, insert-Distinct, map_values, Time, nanos_per_day, day_text, text_lt, sort_slice,
  sum_by-sort_slice, length-sort_slice,
}
use nx_cache.Storage.Types.{ok}
use nx_cache.Store.Types.{Entry, KindCount, DayStat, Stats}
use nx_cache.Store.Kinds.{or_zero, kind_counts_from_map, kind_or_unknown}
use nx_cache.Store.Kinds.Total.{sum_values, sum_values-count, total-from_map, total-kind_counts}
use nx_cache.Store.Object.{hit, values, newer, all_entries, day_less, days_since, stats, Catalog}
use nx_cache.Store.Object
use nx_cache.Store.Db.Queries.{scan_row, scan_all, group_by_kind, add_groups, kind_rows, days_from}
use nx_cache.Store.Db.Queries
use nx_cache.Store.Db.Reported.{stats-ok}
use nx_cache.Store.Db.Mirror.{day_of, tables_of}
use nx_cache.Store.Db.{row_of, Db}

sum_values-add_groups :
    (groups m : Assoc ℕ)
    → Distinct (keys m)
    → (sum_values (add_groups groups m) ≡ sum_values m + sum_values groups)
      × Distinct (keys (add_groups groups m))
unfolding add_groups sum_values
sum_values-add_groups [] m d = (omega arith, d)
sum_values-add_groups ((kind, n) ∷ groups) m d =
    let k = kind_or_unknown kind in
    let m' = insert k (or_zero (lookup k m) + n) m in
    let (sum, distinct) = sum_values-add_groups groups m' (insert-Distinct k _ m d) in
    (omega (arith, sum, sum_values-count k n m), distinct)

sum_values-group_by_kind :
    (es : List Entry) (m : Assoc ℕ) → sum_values (group_by_kind es m) ≡ sum_values m + length es
unfolding group_by_kind
sum_values-group_by_kind [] m = omega arith
sum_values-group_by_kind (e ∷ es) m = omega (
  arith,
  sum_values-group_by_kind es (insert e.info.kind (or_zero (lookup e.info.kind m) + 1) m),
  sum_values-count e.info.kind 1 m,
)

-- The counts by kind of the database add up to its rows.
total-groups :
    (es : List Entry)
    → sum_by
        (λ (c : KindCount). c.count)
        (kind_counts_from_map (add_groups (group_by_kind es []) []))
      ≡ length es
total-groups es =
    let (sum, distinct) = sum_values-add_groups (group_by_kind es []) [] tt in
    total-from_map _ distinct
    ∙ sum
    ∙ ap (λ n. sum_values [] + n) (sum_values-group_by_kind es [])
    ∙ unfold sum_values in omega arith

length-scan_all : (m : Assoc Entry) → length (scan_all (map_values row_of m)) ≡ length (values m)
unfolding scan_all map_values
length-scan_all [] = refl
length-scan_all ((k, e) ∷ m) = ap suc (length-scan_all m)

length-rows : (m : Assoc Entry) → length (map_values row_of m) ≡ length (values m)
unfolding map_values
length-rows [] = refl
length-rows ((k, e) ∷ m) = ap suc (length-rows m)

sum_by-scan_all :
    (m : Assoc Entry)
    → sum_by (λ (e : Entry). e.size) (scan_all (map_values row_of m))
      ≡ sum_by (λ (e : Entry). e.size) (values m)
unfolding scan_all map_values scan_row row_of
sum_by-scan_all [] = refl
sum_by-scan_all ((k, e) ∷ m) = ap (λ n. e.size + n) (sum_by-scan_all m)

-- No day's pointer is nil.
unfoldable pub AllDays : Assoc (Option DayStat) → Type 0
AllDays [] = Unit
AllDays ((day, none) ∷ days) = false ≡ true
AllDays ((day, some d) ∷ days) = AllDays days

days_from-map_values :
    (since : Text) (days : Assoc (Option DayStat))
    → AllDays days
    → days_from since (map_values day_of days) ≡ days_since since days
unfolding days_from days_since map_values day_of AllDays
days_from-map_values since [] h = refl
days_from-map_values since ((day, none) ∷ days) h = absurd (false≢true h)
days_from-map_values since ((day, some d) ∷ days) h =
    ap (λ rest. if text_lt day since then rest else record d { day = day } ∷ rest)
      (days_from-map_values since days h)

-- Two reports that say the same, but for the order and the split of the counts by kind.
pub record Alike (s s' : Stats) : Type 0 where
  pub entries : s.entries ≡ s'.entries
  pub total_size : s.total_size ≡ s'.total_size
  pub hits : s.hits ≡ s'.hits
  pub misses : s.misses ≡ s'.misses
  pub stores : s.stores ≡ s'.stores
  pub days : s.days ≡ s'.days
  pub kinds :
      sum_by (λ (c : KindCount). c.count) s.by_kind ≡ sum_by (λ (c : KindCount). c.count) s'.by_kind

module _ (now : Time) (o : Catalog) (d : Db) (same : d.tables ≡ tables_of o) where
  abbrev since : Text
  since = day_text (now - 6 * nanos_per_day)

  report_of_tables :
      ((i : ℕ) → d.unreadable d.runs i ≡ false)
      → Queries.stats now d
        ≡ ok (record {
          entries = length d.tables.cache_entries;
          total_size = sum_by (λ e. e.size) (scan_all d.tables.cache_entries);
          hits = o.stats.hits;
          misses = o.stats.misses;
          stores = o.stats.stores;
          days =
              sort_slice day_less
                (days_from (day_text (now - 6 * nanos_per_day)) d.tables.daily_stats);
          by_kind = kind_counts_from_map (
              add_groups
                (kind_rows (d.stops d.runs) (group_by_kind (scan_all d.tables.cache_entries) []))
                []);
        })
  unfolding lookup text_eq tables_of
  report_of_tables r =
      stats-ok now d o.stats.hits o.stats.misses o.stats.stores r
        (ap (λ t. lookup (codes "hits") t.counters) same)
        (ap (λ t. lookup (codes "misses") t.counters) same)
        (ap (λ t. lookup (codes "stores") t.counters) same)

  -- A readable database that holds what a catalog in memory holds reports what it reports: the same
  -- number and size of the entries, totals and days, and counts by kind with the same sum, if no day's
  -- pointer is nil and the rows by kind do not end early.
  pub stats-Alike :
      ((i : ℕ) → d.unreadable d.runs i ≡ false)
      → d.stops d.runs ≡ none
      → AllDays o.stats.days
      → (s : Stats) × (s' : Stats) × (Queries.stats now d ≡ ok s)
        × (Object.stats now o ≡ ok s')
        × Alike s s'
  unfolding Object.stats all_entries tables_of kind_rows
  stats-Alike r whole no_nil =
      let es = values o.entries in
      (
        _,
        _,
        report_of_tables r,
        refl,
        record {
          entries =
              ap (λ t. length t.cache_entries) same
              ∙ length-rows o.entries
              ∙ sym (length-sort_slice newer es);
          total_size =
              ap (λ t. sum_by (λ (e : Entry). e.size) (scan_all t.cache_entries)) same
              ∙ sum_by-scan_all o.entries
              ∙ sym (sum_by-sort_slice newer (λ (e : Entry). e.size) es);
          hits = refl;
          misses = refl;
          stores = refl;
          days =
              ap (λ t. sort_slice day_less (days_from since t.daily_stats)) same
              ∙ ap (sort_slice day_less) (days_from-map_values since o.stats.days no_nil);
          kinds =
              ap
                (λ stop.
                  sum_by (λ (c : KindCount). c.count)
                    (kind_counts_from_map (
                      add_groups
                        (kind_rows stop (group_by_kind (scan_all d.tables.cache_entries) [])) [])))
                whole
              ∙ total-groups (scan_all d.tables.cache_entries)
              ∙ ap (λ t. length (scan_all t.cache_entries)) same
              ∙ length-scan_all o.entries
              ∙ sym (total-kind_counts (all_entries o) ∙ length-sort_slice newer es);
        },
      )
