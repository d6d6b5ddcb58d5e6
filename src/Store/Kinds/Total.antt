-- ===== src/Store/Kinds/Total.antt =====
-- internal/store/store.go: the counts by kind miss no artifact.
use nx_cache.Common.{
  ℕ, ◌+◌, ◌≡◌, refl, ◌∙◌, false, List, [], ◌∷◌, arith, length, sum_by, sum_by-append, Text, text_eq,
  text_eq_iff, Assoc, lookup, insert, mem, Distinct, keys, insert-Distinct, sort_slice,
  sum_by-sort_slice,
}
use nx_cache.Store.Types.{Entry, KindCount}
use nx_cache.Store.Kinds.{
  or_zero, known_kinds, known_counts, kinds_of, extra_counts, kind_less, counts_in_order,
  kind_counts_from_map, kind_or_unknown, count_kinds,
}

abbrev total : List KindCount → ℕ
total = sum_by (λ c. c.count)

unfoldable pub sum_values : Assoc ℕ → ℕ
sum_values [] = 0
sum_values ((k, n) ∷ m) = n + sum_values m

mem-kinds_of-known :
    (k : Text) (order : List Text) (m : Assoc ℕ)
    → mem k order ≡ false
    → mem k (kinds_of (known_counts order m)) ≡ false
unfolding known_counts mem
mem-kinds_of-known k [] m h = refl
mem-kinds_of-known k (j ∷ order) m h = ground (arith, mem-kinds_of-known k order m)

extra-absent :
    (k : Text) (seen : List Text) (m : Assoc ℕ)
    → mem k (keys m) ≡ false
    → total (extra_counts (k ∷ seen) m) ≡ total (extra_counts seen m)
unfolding extra_counts mem
extra-absent k seen [] h = refl
extra-absent k seen ((j, n) ∷ m) h =
    ground (arith, extra-absent k seen m, text_eq_iff k j, text_eq_iff j k)

-- One more kind seen takes its count out of the rest.
extra-cons :
    (k : Text) (seen : List Text) (m : Assoc ℕ)
    → Distinct (keys m)
    → mem k seen ≡ false
    → total (extra_counts seen m) ≡ or_zero (lookup k m) + total (extra_counts (k ∷ seen) m)
unfolding extra_counts mem lookup
extra-cons k seen [] d h = refl
extra-cons k seen ((j, n) ∷ m) d h =
    ground (arith, extra-cons k seen m, extra-absent k seen m, text_eq_iff j k, text_eq_iff k j)

extra-nil : (m : Assoc ℕ) → total (extra_counts [] m) ≡ sum_values m
unfolding extra_counts sum_values mem
extra-nil [] = refl
extra-nil ((k, n) ∷ m) = ground (arith, extra-nil m)

known-extra :
    (order : List Text) (m : Assoc ℕ)
    → Distinct order
    → Distinct (keys m)
    → total (known_counts order m) + total (extra_counts (kinds_of (known_counts order m)) m)
      ≡ sum_values m
unfolding known_counts
known-extra [] m d dm = rw extra-nil (omega arith)
known-extra (k ∷ order) m d dm = ground (
  arith,
  known-extra order m,
  extra-cons k (kinds_of (known_counts order m)) m,
  mem-kinds_of-known k order m,
)

known-Distinct : Distinct known_kinds
unfolding mem text_eq
known-Distinct = (refl, (refl, (refl, (refl, (refl, tt)))))

total-counts_in_order :
    (order : List Text) (m : Assoc ℕ)
    → Distinct order
    → Distinct (keys m)
    → total (counts_in_order order m) ≡ sum_values m
unfolding counts_in_order
total-counts_in_order order m d dm =
    let out = known_counts order m in
    let rest = extra_counts (kinds_of out) m in
    omega (
      arith,
      sum_by-append (λ (c : KindCount). c.count) out (sort_slice kind_less rest),
      sum_by-sort_slice kind_less (λ (c : KindCount). c.count) rest,
      known-extra order m d dm,
    )

pub sum_values-count :
    (k : Text) (c : ℕ) (m : Assoc ℕ)
    → sum_values (insert k (or_zero (lookup k m) + c) m) ≡ sum_values m + c
unfolding sum_values insert lookup
sum_values-count k c [] = omega arith
sum_values-count k c ((j, n) ∷ m) = ground (arith, sum_values-count k c m)

counted :
    (es : List Entry) (m : Assoc ℕ)
    → Distinct (keys m)
    → (sum_values (count_kinds es m) ≡ sum_values m + length es)
      × Distinct (keys (count_kinds es m))
unfolding count_kinds
counted [] m d = (omega arith, d)
counted (e ∷ es) m d =
    let k = kind_or_unknown e.info.kind in
    let m' = insert k (or_zero (lookup k m) + 1) m in
    let (sum, distinct) = counted es m' (insert-Distinct k _ m d) in
    (omega (arith, sum, sum_values-count k 1 m), distinct)

-- The counts by kind add up to the counts of the map.
pub total-from_map :
    (m : Assoc ℕ)
    → Distinct (keys m)
    → sum_by (λ (c : KindCount). c.count) (kind_counts_from_map m) ≡ sum_values m
unfolding kind_counts_from_map
total-from_map m distinct = total-counts_in_order known_kinds m known-Distinct distinct

-- The counts by kind add up to the number of entries that were counted.
pub total-kind_counts :
    (es : List Entry)
    → sum_by (λ (c : KindCount). c.count) (kind_counts_from_map (count_kinds es [])) ≡ length es
total-kind_counts es =
    let (sum, distinct) = counted es [] tt in
    total-from_map (count_kinds es []) distinct ∙ sum ∙ unfold sum_values in omega arith
