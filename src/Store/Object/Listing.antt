-- ===== src/Store/Object/Listing.antt =====
-- internal/store/object.go: what `List`, `ListOlderThan` and `Stats` report.
use nx_cache.Common.{
  suc, zero, ℕ, ◌*◌, ◌+◌, ◌-◌, ◌^◌, to_int64, natural, negative, ◌≤◌, ◌<◌, ◌≡◌, refl, ap, ◌∙◌, inl,
  inr, Bool, true, false, ◌&&◌, Option, none, some, List, [], ◌∷◌, ◌++◌, arith, ltb, Bool-cases,
  length, take, drop, any, sum_by, any-filter, length-take, take_of_length-le, length-drop,
  drop_of_length-le, take-nil, drop-take-add, take-append-take, Text, text_eq, text_eq_iff, Assoc,
  lookup, lookup_absent, Time, text_lt_asym, text_lt_trans, IsSortedBy, sum_by-sort_slice,
  length-sort_slice, any-sort_slice, sort_slice-IsSortedBy,
}
use nx_cache.Storage.Types.{ok_injective, ok}
use nx_cache.Store.Types.{Entry, Stats}
use nx_cache.Store.Kinds.Total.{total-kind_counts}
use nx_cache.Store.Object.Entries.{IsKeyed-tail, IsKeyed}
use nx_cache.Store.Object.{
  values, newer, all_entries, page, list_older_than, day_less, stats, Catalog,
}

newer_asym : (a b : Entry) → newer a b ≡ true → newer b a ≡ false
newer_asym a b h = ground arith

newer_trans : (a b c : Entry) → newer b a ≡ false → newer c b ≡ false → newer c a ≡ false
newer_trans a b c h k = ground arith

-- The entries are listed newest first, in whatever order the map yields them.
pub all_entries-IsSortedBy : (o : Catalog) → IsSortedBy newer (all_entries o)
unfolding all_entries
all_entries-IsSortedBy o = sort_slice-IsSortedBy newer newer_asym newer_trans (values o.entries)

-- A page is the entries behind the first `offset`, as many as the limit allows.
page_lem :
    (limit offset : ℕ) (es : List Entry)
    → 0 < limit
    → offset + limit < 2 ^ 63
    → page limit (natural offset) es ≡ some (take limit (drop offset es))
unfolding page
page_lem limit offset es pos small = elim (Bool-cases (ltb (length es) offset)) [
  | inl beyond ↦ ground (
    arith,
    drop_of_length-le offset es,
    drop_of_length-le (length es) (take (length es) es),
    length-take (length es) es,
    take-nil limit (drop offset es),
  )
  | inr within ↦ ground (
    arith,
    take_of_length-le (length es) es,
    take_of_length-le limit (drop offset es),
    length-drop offset es,
    drop-take-add offset limit es,
  )
]

to_int64-small : (n : ℕ) → n < 2 ^ 63 → to_int64 n ≡ natural n
unfolding to_int64
to_int64-small n h = ground arith

to_int64-wraps : (n : ℕ) → 2 ^ 63 ≤ n → n < 2 ^ 64 → (m : ℕ) × (to_int64 n ≡ negative m)
unfolding to_int64
to_int64-wraps n h k = (2 ^ 64 - n - 1, ground arith)

-- Both, if none of them is a panic.
abbrev pub joined : Option (List Entry) → Option (List Entry) → Option (List Entry)
joined none b = none
joined (some xs) none = none
joined (some xs) (some ys) = some (xs ++ ys)

-- The first `n` pages of `limit` entries, with the offsets that the dashboard asks for.
pub pages : ℕ → ℕ → List Entry → Option (List Entry)
unfolding page to_int64
pages limit zero es = some []
pages limit (suc n) es = joined (pages limit n es) (page limit (to_int64 (n * limit)) es)

page_at :
    (limit k : ℕ) (es : List Entry)
    → 0 < limit
    → (k + 1) * limit < 2 ^ 63
    → page limit (to_int64 (k * limit)) es ≡ some (take limit (drop (k * limit) es))
page_at limit k es pos small =
    let fits : k * limit + limit < 2 ^ 63 = grind arith in
    ap (λ offset. page limit offset es) (to_int64-small (k * limit) (omega arith))
    ∙ page_lem limit (k * limit) es pos fits

pages-take :
    (limit n : ℕ) (es : List Entry)
    → 0 < limit
    → n * limit < 2 ^ 63
    → pages limit n es ≡ some (take (n * limit) es)
unfolding pages
pages-take limit zero es pos small = ground arith
pages-take limit (suc n) es pos small =
    rw
      (
        pages-take limit n es pos (grind arith),
        page_at limit n es pos (grind arith),
        take-append-take,
      )
      (ap (λ k. some (take k es)) (grind arith))

-- The pages that the dashboard asks for are, one after the other, the whole list, each entry once
-- and in its order, when the limit is not 0, they are enough to hold it, and the offset behind the
-- last of them is below 2 ^ 63; no page whose end, before it is cut to the list, is below 2 ^ 63
-- panics or has more entries than the limit; and one whose offset, from 2 ^ 63 on and below 2 ^ 64,
-- wraps to a negative number panics.
pub pages-cover :
    (limit n : ℕ) (es : List Entry)
    → 0 < limit
    → length es ≤ n * limit
    → n * limit < 2 ^ 63
    → (pages limit n es ≡ some es)
      × ((k : ℕ)
          → (k + 1) * limit < 2 ^ 63
          → (p : List Entry) × (page limit (to_int64 (k * limit)) es ≡ some p) × (length p ≤ limit))
      × ((k : ℕ)
          → 2 ^ 63 ≤ k * limit
          → k * limit < 2 ^ 64
          → page limit (to_int64 (k * limit)) es ≡ none)
unfolding page
pages-cover limit n es pos enough small = (
  pages-take limit n es pos small ∙ ap some (take_of_length-le (n * limit) es enough),
  λ k fits. (
    take limit (drop (k * limit) es),
    page_at limit k es pos fits,
    omega (arith, length-take limit (drop (k * limit) es)),
  ),
  λ k low high. let (m, wraps) = to_int64-wraps (k * limit) low high in rw wraps refl,
)

-- Created before the cutoff; a missing entry is not.
abbrev pub is_older : Time → Option Entry → Bool
is_older cutoff none = false
is_older cutoff (some e) = ltb e.created_at cutoff

any-values :
    (k : Text) (cutoff : Time) (m : Assoc Entry)
    → IsKeyed m
    → any (λ e. ltb e.created_at cutoff && text_eq e.hash k) (values m)
      ≡ is_older cutoff (lookup k m)
unfolding lookup
any-values k cutoff [] h = refl
any-values k cutoff ((j, e) ∷ m) h =
    let (same, rest) = IsKeyed-tail j e m h in
    ground (arith, any-values k cutoff m rest, lookup_absent k m, text_eq_iff j k, h.distinct.0)

-- A hash is listed as older than a cutoff exactly if the catalog has an entry under it that was
-- created before the cutoff.
pub list_older_than_iff :
    (o : Catalog) (cutoff : Time) (es : List Entry) (k : Text)
    → IsKeyed o.entries
    → list_older_than cutoff o ≡ ok es
    → any (λ e. text_eq e.hash k) es ≡ is_older cutoff (lookup k o.entries)
unfolding list_older_than
list_older_than_iff o cutoff es k h p = rw (← ok_injective _ es p) (
    any-filter (λ e. text_eq e.hash k) (λ e. ltb e.created_at cutoff) _
    ∙ any-sort_slice newer _ (values o.entries)
    ∙ any-values k cutoff o.entries h)

-- The report of `Stats` counts every entry once: its number of entries, its sum of sizes and the
-- counts by kind are those of the catalog, its totals are the counters, and its days are in order.
pub stats_totals :
    (o : Catalog) (now : Time) (s : Stats)
    → stats now o ≡ ok s
    → (s.entries ≡ length (values o.entries))
      × (s.total_size ≡ sum_by (λ e. e.size) (values o.entries))
      × (sum_by (λ c. c.count) s.by_kind ≡ s.entries)
      × (s.hits ≡ o.stats.hits)
      × (s.misses ≡ o.stats.misses)
      × (s.stores ≡ o.stats.stores)
      × IsSortedBy day_less s.days
unfolding stats
stats_totals o now s p =
    let es = all_entries o in
    rw (← ok_injective _ s p) (
      length-sort_slice newer (values o.entries),
      sum_by-sort_slice newer (λ e. e.size) (values o.entries),
      total-kind_counts es,
      refl,
      refl,
      refl,
      sort_slice-IsSortedBy day_less (λ a b. text_lt_asym a.day b.day)
          (λ a b c. text_lt_trans a.day b.day c.day) _,
    )
