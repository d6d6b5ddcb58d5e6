-- ===== src/Cleanup.antt =====
-- internal/cleanup/cleanup.go: `Run`, which removes what has outlived the TTL, and `MaybeRun`,
-- which decides whether one is due. Each reading of the clock is an argument.
pub mod Expiry
pub mod Removed
pub mod Spared
pub mod Ticks
use nx_cache.Common.{
  ℕ, zero, ◌-◌, ◌+◌, ◌/◌, min, ap, Bool, true, false, not, ◌||◌, Option, none, some, List, [], ◌∷◌,
  ◌++◌, ltb, ◌==◌, if◌then◌else◌, length, Text, cut, remove, mem, Time, is_zero,
}
use nx_cache.Storage.Types.{Fault, Result, Object, Backend, ok, err}
use nx_cache.Store.Types.{Entry}
use nx_cache.Store.Interface.{Store}

pub record Cleaner : Type 0 where
  pub ttl : ℕ
  pub last_run : Time
  pub min_gap : ℕ

abbrev pub minute : ℕ
minute = 60_000_000_000

abbrev pub hour : ℕ
hour = 3_600_000_000_000

abbrev pub hashes_of : List Entry → List Text
hashes_of [] = []
hashes_of (e ∷ es) = e.hash ∷ hashes_of es

-- The objects whose time is known and before the cutoff; the loop skips the others.
unfoldable pub stale_objects : Time → List Object → List Text
stale_objects cutoff [] = []
stale_objects cutoff (o ∷ os) =
    let rest = stale_objects cutoff os in
    if is_zero o.last_modified || not (ltb o.last_modified cutoff) then rest else o.hash ∷ rest

-- Both loops append a hash that is not in `seen`, which holds what was appended.
unfoldable pub gather : List Text → List Text → List Text
gather hashes [] = hashes
gather hashes (h ∷ hs) = gather (if mem h hashes then hashes else hashes ++ h ∷ []) hs

module _ (b : Backend) (s : Store) where
  abbrev pub World : Type 0
  World = b.State × s.State

  unfoldable pub store_delete : List Text → b.State → Option Fault × s.State → Result ℕ × World
  store_delete hashes bs (some e, ss) = (err e, (bs, ss))
  store_delete hashes bs (none, ss) = (ok (length hashes), (bs, ss))

  unfoldable pub backend_delete : List Text → Option Fault × b.State → s.State → Result ℕ × World
  unfolding store_delete
  backend_delete hashes (some e, bs) ss = (err e, (bs, ss))
  backend_delete hashes (none, bs) ss = store_delete hashes bs (s.delete hashes ss)

  unfoldable pub remove_hashes : List Text → World → Result ℕ × World
  unfolding backend_delete
  remove_hashes [] w = (ok 0, w)
  remove_hashes (h ∷ hs) (bs, ss) = backend_delete (h ∷ hs) (b.delete bs (h ∷ hs)) ss

  unfoldable pub with_objects : Time → List Text → Result (List Object) → World → Result ℕ × World
  unfolding remove_hashes gather stale_objects
  with_objects cutoff hashes (err e) w = (err e, w)
  with_objects cutoff hashes (ok objects) w =
      remove_hashes (gather hashes (stale_objects cutoff objects)) w

  unfoldable pub with_entries : Time → Result (List Entry) → World → Result ℕ × World
  unfolding with_objects gather
  with_entries cutoff (err e) w = (err e, w)
  with_entries cutoff (ok entries) (bs, ss) =
      with_objects cutoff (gather [] (hashes_of entries)) (b.list bs) (bs, ss)

  -- Run, behind the assignment of `lastRun`.
  unfoldable pub sweep : Time → World → Result ℕ × World
  unfolding with_entries
  sweep cutoff (bs, ss) = with_entries cutoff (s.list_older_than cutoff ss) (bs, ss)

  -- Run: `now` is read for `lastRun`, and `later` for the cutoff.
  unfoldable pub run : Time → Time → Cleaner → World → Result ℕ × World × Cleaner
  run now later c w = let (r, w') = sweep (later - c.ttl) w in (r, w', record c { last_run = now })

-- MaybeRun: whether a run is started in the background, and the cleaner.
unfoldable pub maybe_run : Time → Time → Cleaner → Bool × Cleaner
maybe_run since now c =
    let gap = if c.min_gap == 0 then minute else c.min_gap in
    if ltb (since - c.last_run) gap then (false, c) else (true, record c { last_run = now })

-- Start, before its loop: the interval of the ticker, and the cleaner.
unfoldable pub start : ℕ → Cleaner → ℕ × Cleaner
start interval c = (
  if interval == 0 then hour else interval,
  if c.min_gap == 0 then record c { min_gap = minute } else c,
)

-- The goroutine of Start: a run at once, and one at each tick until the context is done. A tick is the
-- clock's two readings of its run. A run that fails is logged, and the loop goes on.
module _ (b : Backend) (s : Store) where
  unfoldable pub run_ticks : List (Time × Time) → Cleaner → World b s → World b s × Cleaner
  unfolding run
  run_ticks [] c w = (w, c)
  run_ticks ((now, later) ∷ ticks) c w =
      let (r, w', c') = run b s now later c w in run_ticks ticks c' w'

  unfoldable pub run_started :
      (first : Time × Time)
      → List (Time × Time)
      → (interval : ℕ) → Cleaner
      → World b s
      → World b s × Cleaner
  unfolding start run_ticks
  run_started first ticks interval c w = run_ticks (first ∷ ticks) (start interval c).1 w
