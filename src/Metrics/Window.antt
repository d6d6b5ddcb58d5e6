-- ===== src/Metrics/Window.antt =====
-- internal/metrics/metrics.go: the window holds the latest durations, and its percentiles are
-- among them.
use nx_cache.Common.{
  suc, zero, ℕ, ◌-◌, ◌+◌, ◌/◌, ◌*◌, ◌≤◌, ◌<◌, ◌≡◌, refl, sym, ◌∙◌, inl, inr, true, false, List, [],
  ◌∷◌, ◌++◌, append_assoc, append-nil, arith, ltb, ltb→lt, Bool-cases, length, get_or, drop, sum_by,
  length-append, length-drop, drop-drop, All, Int64, natural, negative, sort_slice, IsSortedBy,
  length-sort_slice, All-sort_slice, sort_slice-IsSortedBy,
}
use nx_cache.Metrics.{
  sample_limit, no_operations, clamp_duration, add_bytes, push_sample, observe, percentile, shorter,
  summarize, OperationLog,
}

-- The observations one after the other, as duration and bytes.
unfoldable pub observe_all : OperationLog → List (Int64 × Int64) → OperationLog
unfolding observe
observe_all op [] = op
observe_all op ((d, n) ∷ rest) = observe_all (observe op d n) rest

abbrev pub durations : List (Int64 × Int64) → List ℕ
durations [] = []
durations ((d, n) ∷ rest) = clamp_duration d ∷ durations rest

-- The last `n` items.
abbrev pub latest : ℕ → List ℕ → List ℕ
latest n xs = drop (length xs - n) xs

drop-append : (n : ℕ) (xs ys : List ℕ) → n ≤ length xs → drop n (xs ++ ys) ≡ drop n xs ++ ys
drop-append zero xs ys h = refl
drop-append (suc n) [] ys h = absurd (omega arith)
drop-append (suc n) (x ∷ xs) ys h = drop-append n xs ys (omega arith)

-- One more observation of a window that holds the latest durations.
push_sample-latest :
    (d : ℕ) (seen : List ℕ)
    → push_sample d (latest sample_limit seen) ≡ latest sample_limit (seen ++ d ∷ [])
unfolding push_sample
push_sample-latest d seen =
    let n = length seen in
    let m : length (seen ++ d ∷ []) ≡ n + 1 = length-append seen (d ∷ []) in
    elim (Bool-cases (ltb n sample_limit)) [
      | inl few ↦
          let now : n - 512 ≡ 0 = omega (arith, ltb→lt n 512 few) in
          let then_ : length (seen ++ d ∷ []) - 512 ≡ 0 = omega (arith, ltb→lt n 512 few) in
          rw (then_, now) (ground arith)
      | inr many ↦
          let full : length (drop (n - 512) seen) ≡ 512 =
            ground (arith, length-drop (n - 512) seen) in
          let now : length (seen ++ d ∷ []) - 512 ≡ n - 512 + 1 = ground arith in
          rw (now, full, drop-drop (n - 512) 1 seen)
            (sym (drop-append (n - 512 + 1) seen (d ∷ []) (ground arith)))
    ]

observed :
    (obs : List (Int64 × Int64)) (op : OperationLog) (seen : List ℕ)
    → op.samples ≡ latest sample_limit seen
    → (observe_all op obs).samples ≡ latest sample_limit (seen ++ durations obs)
unfolding observe_all observe
observed [] op seen h = rw append-nil h
observed ((d, n) ∷ obs) op seen h =
    rw (← append_assoc seen (clamp_duration d ∷ []) (durations obs)) (
      observed obs (observe op d n) (seen ++ clamp_duration d ∷ [])
        (rw h (push_sample-latest (clamp_duration d) seen)))

count-observe_all :
    (obs : List (Int64 × Int64)) (op : OperationLog)
    → (observe_all op obs).count ≡ op.count + length obs
unfolding observe_all observe
count-observe_all [] op = omega arith
count-observe_all ((d, n) ∷ obs) op = omega (arith, count-observe_all obs (observe op d n))

-- The bytes that an observation adds.
abbrev pub positive_bytes : Int64 × Int64 → ℕ
positive_bytes o = add_bytes o.1 0

bytes-observe_all :
    (obs : List (Int64 × Int64)) (op : OperationLog)
    → (observe_all op obs).bytes ≡ op.bytes + sum_by positive_bytes obs
unfolding observe_all observe
bytes-observe_all [] op = omega arith
bytes-observe_all ((d, natural n) ∷ obs) op =
    omega (arith, bytes-observe_all obs (observe op d (natural n)))
bytes-observe_all ((d, negative n) ∷ obs) op =
    omega (arith, bytes-observe_all obs (observe op d (negative n)))

-- After any observations since the start, the window holds the latest 512 durations in their order,
-- a negative one as 0; the count is that of all observations, and the bytes are the sum of those
-- that are not negative.
pub observe_all-latest :
    (obs : List (Int64 × Int64))
    → ((observe_all no_operations obs).samples ≡ latest sample_limit (durations obs))
      × ((observe_all no_operations obs).count ≡ length obs)
      × ((observe_all no_operations obs).bytes ≡ sum_by positive_bytes obs)
      × (length (observe_all no_operations obs).samples ≤ sample_limit)
observe_all-latest obs =
    let s = observed obs no_operations [] refl in
    (
      s,
      count-observe_all obs no_operations ∙ omega arith,
      bytes-observe_all obs no_operations ∙ omega arith,
      rw s (omega (arith, length-drop (length (durations obs) - 512) (durations obs))),
    )

get_or-bound :
    (x i : ℕ) (xs : List ℕ) → All (λ y. shorter y x ≡ false) xs → i < length xs → x ≤ get_or xs i 0
get_or-bound x i [] h lt = absurd (omega arith)
get_or-bound x zero (y ∷ xs) h lt = ground arith
get_or-bound x (suc i) (y ∷ xs) h lt = get_or-bound x i xs h.1 (omega arith)

get_or_mono :
    (i j : ℕ) (xs : List ℕ)
    → IsSortedBy shorter xs
    → i ≤ j
    → j < length xs
    → get_or xs i 0 ≤ get_or xs j 0
get_or_mono i j [] h le lt = absurd (omega arith)
get_or_mono zero zero (x ∷ xs) h le lt = omega arith
get_or_mono zero (suc j) (x ∷ xs) h le lt = get_or-bound x j xs h.0 (omega arith)
get_or_mono (suc i) zero (x ∷ xs) h le lt = absurd (omega arith)
get_or_mono (suc i) (suc j) (x ∷ xs) h le lt = get_or_mono i j xs h.1 (omega arith) (omega arith)

get_or-All : (P : ℕ → Type 0) (i : ℕ) (xs : List ℕ) → All P xs → i < length xs → P (get_or xs i 0)
get_or-All P i [] h lt = absurd (omega arith)
get_or-All P zero (x ∷ xs) h lt = h.0
get_or-All P (suc i) (x ∷ xs) h lt = get_or-All P i xs h.1 (omega arith)

mul_mono : (n p q : ℕ) → p ≤ q → n * p ≤ n * q
mul_mono n p q h = grind arith

index_mono : (n p q : ℕ) → p ≤ q → n * p / 100 ≤ n * q / 100
index_mono n p q h = omega (arith, mul_mono n p q h)

index_in_range : (n q : ℕ) → q ≤ 100 → n * q / 100 < suc n
index_in_range n q h = omega (arith, mul_mono n q 100 h)

percentile_mono :
    (p q : ℕ) (xs : List ℕ)
    → IsSortedBy shorter xs
    → p ≤ q
    → q ≤ 100
    → percentile xs p ≤ percentile xs q
unfolding percentile
percentile_mono p q [] h le top = omega arith
percentile_mono p q (x ∷ xs) h le top =
    get_or_mono ((length (x ∷ xs) - 1) * p / 100) ((length (x ∷ xs) - 1) * q / 100) (x ∷ xs) h
      (index_mono (length (x ∷ xs) - 1) p q le)
      (omega (arith, index_in_range (length (x ∷ xs) - 1) q top))

percentile-All :
    (P : ℕ → Type 0) (p : ℕ) (xs : List ℕ) → P 0 → All P xs → p ≤ 100 → P (percentile xs p)
unfolding percentile
percentile-All P p [] z h top = z
percentile-All P p (x ∷ xs) z h top =
    get_or-All P ((length (x ∷ xs) - 1) * p / 100) (x ∷ xs) h
      (omega (arith, index_in_range (length (x ∷ xs) - 1) p top))

-- The report of an operation: its median is at most its 95th percentile, each is one of the
-- samples, or 0 if there is none, and the number of samples is that of the log.
pub summarize_lem :
    (op : OperationLog) (P : ℕ → Type 0)
    → P 0
    → All P op.samples
    → ((summarize op).p50 ≤ (summarize op).p95)
      × P (summarize op).p50
      × P (summarize op).p95
      × ((summarize op).samples ≡ length op.samples)
unfolding summarize
summarize_lem op P z h =
    let xs = sort_slice shorter op.samples in
    let hs = All-sort_slice shorter P op.samples h in
    let s =
      sort_slice-IsSortedBy shorter (λ (a b : ℕ) (h : shorter a b ≡ true). asym a b h)
        (λ (a b c : ℕ) (h : shorter b a ≡ false) (k : shorter c b ≡ false). trans a b c h k)
        op.samples in
    (
      percentile_mono 50 95 xs s (omega arith) (omega arith),
      percentile-All P 50 xs z hs (omega arith),
      percentile-All P 95 xs z hs (omega arith),
      length-sort_slice shorter op.samples,
    )
  where
    asym : (a b : ℕ) → shorter a b ≡ true → shorter b a ≡ false
    asym a b h = ground arith

    trans : (a b c : ℕ) → shorter b a ≡ false → shorter c b ≡ false → shorter c a ≡ false
    trans a b c h k = ground arith
