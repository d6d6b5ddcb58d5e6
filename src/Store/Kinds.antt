-- ===== src/Store/Kinds.antt =====
-- internal/store/store.go: `kindCountsFromMap`, and the loop of `Stats` that fills its map.
pub mod Total
use nx_cache.Common.{
  ℕ, zero, ◌-◌, ◌+◌, ◌/◌, ap, Bool, not, ◌||◌, Option, none, some, List, [], ◌∷◌, ◌++◌, map, ltb,
  ◌==◌, if◌then◌else◌, Text, codes, is_empty, Assoc, lookup, insert, mem, second, text_lt,
  sort_slice,
}
use nx_cache.Store.Types.{Entry, KindCount, Stats}

-- counts[k], 0 where the key is missing
abbrev pub or_zero : Option ℕ → ℕ
or_zero none = 0
or_zero (some n) = n

abbrev pub known_kinds : List Text
known_kinds = codes "build" ∷ codes "test" ∷ codes "lint" ∷ codes "e2e" ∷ codes "typecheck" ∷ []

-- The first loop: the kinds of `order` that are counted, in that order.
unfoldable pub known_counts : List Text → Assoc ℕ → List KindCount
known_counts [] counts = []
known_counts (k ∷ order) counts =
    let n = or_zero (lookup k counts) in
    let rest = known_counts order counts in
    if ltb 0 n then record { kind = k; count = n } ∷ rest else rest

abbrev pub kinds_of : List KindCount → List Text
kinds_of [] = []
kinds_of (c ∷ cs) = c.kind ∷ kinds_of cs

-- The second loop: what the first has not seen, in the map's order.
unfoldable pub extra_counts : List Text → Assoc ℕ → List KindCount
extra_counts seen [] = []
extra_counts seen ((k, n) ∷ counts) =
    let rest = extra_counts seen counts in
    if mem k seen || n == 0 then rest else record { kind = k; count = n } ∷ rest

abbrev pub kind_less : KindCount → KindCount → Bool
kind_less a b = text_lt a.kind b.kind

-- kindCountsFromMap, over its list `order`.
unfoldable pub counts_in_order : List Text → Assoc ℕ → List KindCount
unfolding known_counts extra_counts
counts_in_order order counts =
    let out = known_counts order counts in
    out ++ sort_slice kind_less (extra_counts (kinds_of out) counts)

unfoldable pub kind_counts_from_map : Assoc ℕ → List KindCount
unfolding counts_in_order
kind_counts_from_map counts = counts_in_order known_kinds counts

abbrev pub kind_or_unknown : Text → Text
kind_or_unknown kind = if is_empty kind then codes "unknown" else kind

-- counts[kind]++ for each entry
unfoldable pub count_kinds : List Entry → Assoc ℕ → Assoc ℕ
count_kinds [] counts = counts
count_kinds (e ∷ es) counts =
    let kind = kind_or_unknown e.info.kind in
    count_kinds es (insert kind (or_zero (lookup kind counts) + 1) counts)
