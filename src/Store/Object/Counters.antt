-- ===== src/Store/Object/Counters.antt =====
-- internal/store/object.go: the totals agree with the days.
use nx_cache.Common.{
  ℕ, ◌+◌, ◌≡◌, refl, Option, none, some, List, [], ◌∷◌, arith, sum_by, Text, Assoc, lookup, insert,
  Time, day_text,
}
use nx_cache.Store.Types.{TaskInfo, Entry, DayStat}
use nx_cache.Store.Object.Run.{
  perform, run, run_induction, Operation, upsert, hit_at, miss_at, delete_all, ensure, update,
  put_back,
}
use nx_cache.Store.Object.{
  bump_total, bump_day, day_or_new, bump_at, bump_locked, upsert_entry, record_hit, record_miss,
  delete, ensure_known, ensure_entry, update_known, update_task_info, seed, ObjectStats, Catalog,
  Counter, hits_key, misses_key, stores_key,
}

abbrev pub count_of : Counter → DayStat → ℕ
count_of hits_key d = d.hits
count_of misses_key d = d.misses
count_of stores_key d = d.stores

abbrev pub total_of : Counter → ObjectStats → ℕ
total_of hits_key s = s.hits
total_of misses_key s = s.misses
total_of stores_key s = s.stores

-- The count of the days together, a nil record counting nothing.
abbrev pub over_days : Counter → Assoc (Option DayStat) → ℕ
over_days c [] = 0
over_days c ((day, none) ∷ days) = over_days c days
over_days c ((day, some d) ∷ days) = count_of c d + over_days c days

-- Each total is the sum of its daily counts.
pub record IsBalanced (s : ObjectStats) : Type 0 where
  pub hits : s.hits ≡ over_days hits_key s.days
  pub misses : s.misses ≡ over_days misses_key s.days
  pub stores : s.stores ≡ over_days stores_key s.days

over_days-bump :
    (key c : Counter) (day : Text) (days : Assoc (Option DayStat))
    → over_days c (insert day (some (bump_day key (day_or_new day (lookup day days)))) days)
        + count_of c (day_or_new [] none)
      ≡ over_days c days + count_of c (bump_day key (day_or_new [] none))
unfolding insert lookup bump_day day_or_new
over_days-bump key c day [] = ground arith
over_days-bump key c day ((j, none) ∷ days) = ground (arith, over_days-bump key c day days)
over_days-bump key c day ((j, some d) ∷ days) = ground (arith, over_days-bump key c day days)

bump_at-IsBalanced :
    (key : Counter) (day : Text) (s : ObjectStats) → IsBalanced s → IsBalanced (bump_at key day s)
unfolding bump_at bump_total bump_day day_or_new
bump_at-IsBalanced key day s h = ground (
  arith,
  over_days-bump key hits_key day s.days,
  over_days-bump key misses_key day s.days,
  over_days-bump key stores_key day s.days,
)

stats-ensure_known :
    (hash : Text) (size : ℕ) (at : Time) (known : Option Entry) (o : Catalog)
    → (ensure_known hash size at known o).stats ≡ o.stats
unfolding ensure_known
stats-ensure_known hash size at none o = refl
stats-ensure_known hash size at (some e) o = ground arith

stats-update_known :
    (hash : Text) (info : TaskInfo) (known : Option Entry) (o : Catalog)
    → (update_known hash info known o).stats ≡ o.stats
unfolding update_known
stats-update_known hash info none o = refl
stats-update_known hash info (some e) o = refl

-- The counters after an operation: one of the three counting operations, or as before.
stats_after : Operation → ObjectStats → ObjectStats
unfolding bump_locked
stats_after (upsert hash size at info) s = bump_locked stores_key at s
stats_after (hit_at hash at) s = bump_locked hits_key at s
stats_after (miss_at at) s = bump_locked misses_key at s
stats_after (delete_all hashes) s = s
stats_after (ensure hash size at) s = s
stats_after (update hash info) s = s
stats_after (put_back e) s = s

stats-perform : (op : Operation) (o : Catalog) → (perform op o).stats ≡ stats_after op o.stats
unfolding perform upsert_entry record_hit record_miss delete ensure_entry update_task_info seed
    stats_after
stats-perform (delete_all []) o = refl
stats-perform (delete_all (k ∷ ks)) o = refl
stats-perform (ensure hash size at) o = stats-ensure_known hash size at (lookup hash o.entries) o
stats-perform (update hash info) o = stats-update_known hash info (lookup hash o.entries) o
stats-perform _ o = refl

stats_after-IsBalanced :
    (op : Operation) (s : ObjectStats) → IsBalanced s → IsBalanced (stats_after op s)
unfolding stats_after
stats_after-IsBalanced (upsert hash size at info) s h =
    bump_at-IsBalanced stores_key (day_text at) s h
stats_after-IsBalanced (hit_at hash at) s h = bump_at-IsBalanced hits_key (day_text at) s h
stats_after-IsBalanced (miss_at at) s h = bump_at-IsBalanced misses_key (day_text at) s h
stats_after-IsBalanced _ s h = h

-- Whatever operations are run on a catalog whose totals are the sums of their daily counts, the
-- totals are the sums of the daily counts again.
pub run-IsBalanced :
    (ops : List Operation) (o : Catalog) → IsBalanced o.stats → IsBalanced (run ops o).stats
run-IsBalanced =
    run_induction (λ o. IsBalanced o.stats)
      λ op o h. rw stats-perform (stats_after-IsBalanced op o.stats h)

-- How many times an operation is counted under a key.
abbrev pub counts : Counter → Operation → ℕ
counts stores_key (upsert hash size at info) = 1
counts hits_key (hit_at hash at) = 1
counts misses_key (miss_at at) = 1
counts _ _ = 0

total-stats_after :
    (c : Counter) (op : Operation) (s : ObjectStats)
    → total_of c (stats_after op s) ≡ total_of c s + counts c op
unfolding stats_after bump_at bump_total
total-stats_after hits_key (hit_at hash at) s = omega arith
total-stats_after hits_key _ s = omega arith
total-stats_after misses_key (hit_at hash at) s = omega arith
total-stats_after misses_key _ s = omega arith
total-stats_after stores_key (hit_at hash at) s = omega arith
total-stats_after stores_key _ s = omega arith

-- Each total grows by the number of operations of its kind in the run, and by nothing else.
pub total_of-run :
    (c : Counter) (ops : List Operation) (o : Catalog)
    → total_of c (run ops o).stats ≡ total_of c o.stats + sum_by (counts c) ops
unfolding run
total_of-run c [] o = omega arith
total_of-run c (op ∷ ops) o =
    let here : total_of c (perform op o).stats ≡ total_of c o.stats + counts c op =
      rw stats-perform (total-stats_after c op o.stats) in
    omega (arith, total_of-run c ops (perform op o), here)
