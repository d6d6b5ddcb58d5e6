-- ===== src/Cleanup/Ticks.antt =====
-- internal/cleanup/cleanup.go: what the goroutine of `Start` leaves, run after run.
use nx_cache.Common.{
  ℕ, ◌-◌, ◌≡◌, refl, sym, ◌∙◌, subst, false, Option, none, some, List, [], ◌∷◌, arith, Text, Time,
}
use nx_cache.Storage.Types.{Fault, Result, Object, Backend, BackendLaws, ok, err}
use nx_cache.Store.Types.{Entry}
use nx_cache.Store.Object.Run.{run, delete_all}
use nx_cache.Store.Interface.{call, Store, StoreLaws}
use nx_cache.Cleanup.{
  World, store_delete, backend_delete, remove_hashes, with_objects, with_entries, sweep, start,
  run_ticks, run_started, Cleaner,
}
use nx_cache.Cleanup.Expiry.{gone}
use nx_cache.Cleanup.Spared.{sweep_spares}

-- What the deletions keep, a run keeps, wherever it ends.
module _ (b : Backend) (s : Store) (P : World b s → Type 0)
    (objects_deleted : (hs : List Text) (w : World b s) → P w → P ((b.delete w.0 hs).1, w.1))
    (entries_deleted : (hs : List Text) (w : World b s) → P w → P (w.0, (s.delete hs w.1).1)) where
  store_delete_keeps :
      (hs : List Text) (bs : b.State) (r : Option Fault × s.State)
      → P (bs, r.1)
      → P (store_delete b s hs bs r).1
  unfolding store_delete
  store_delete_keeps hs bs (some e, ss) h = h
  store_delete_keeps hs bs (none, ss) h = h

  backend_delete_keeps :
      (hs : List Text) (r : Option Fault × b.State) (ss : s.State)
      → P (r.1, ss)
      → P (backend_delete b s hs r ss).1
  unfolding backend_delete
  backend_delete_keeps hs (some e, bs) ss h = h
  backend_delete_keeps hs (none, bs) ss h =
      store_delete_keeps hs bs (s.delete hs ss) (entries_deleted hs (bs, ss) h)

  remove_hashes_keeps : (hs : List Text) (w : World b s) → P w → P (remove_hashes b s hs w).1
  unfolding remove_hashes
  remove_hashes_keeps [] w h = h
  remove_hashes_keeps (x ∷ hs) w h =
      backend_delete_keeps (x ∷ hs) (b.delete w.0 (x ∷ hs)) w.1 (objects_deleted (x ∷ hs) w h)

  with_objects_keeps :
      (cutoff : Time) (hs : List Text) (r : Result (List Object)) (w : World b s)
      → P w
      → P (with_objects b s cutoff hs r w).1
  unfolding with_objects
  with_objects_keeps cutoff hs (err e) w h = h
  with_objects_keeps cutoff hs (ok os) w h = remove_hashes_keeps _ w h

  with_entries_keeps :
      (cutoff : Time) (r : Result (List Entry)) (w : World b s)
      → P w
      → P (with_entries b s cutoff r w).1
  unfolding with_entries
  with_entries_keeps cutoff (err e) w h = h
  with_entries_keeps cutoff (ok es) w h = with_objects_keeps cutoff _ (b.list w.0) w h

  sweep_keeps : (cutoff : Time) (w : World b s) → P w → P (sweep b s cutoff w).1
  unfolding sweep
  sweep_keeps cutoff w h = with_entries_keeps cutoff (s.list_older_than cutoff w.1) w h

ttl-start : (interval : ℕ) (c : Cleaner) → (start interval c).1.ttl ≡ c.ttl
unfolding start
ttl-start interval c = ground arith

module _ {b : Backend} {s : Store} (bl : BackendLaws b) (sl : StoreLaws s) where
  abbrev BothSound : World b s → Type 0
  BothSound w = bl.IsSound w.0 × sl.IsSound w.1

  sweep-BothSound : (cutoff : Time) (w : World b s) → BothSound w → BothSound (sweep b s cutoff w).1
  unfolding call
  sweep-BothSound cutoff w h =
      sweep_keeps b s BothSound (λ hs w' k. (bl.delete_IsSound w'.0 hs k.0, k.1))
        (λ hs w' k. (k.0, sl.call_IsSound (delete_all hs) w'.1 k.1)) cutoff w h

  -- At none of the readings a hash has outlived the TTL.
  unfoldable pub StaysYoung : ℕ → World b s → Text → List (Time × Time) → Type 0
  StaysYoung ttl w k [] = Unit
  StaysYoung ttl w k (t ∷ ticks) = (gone bl sl (t.1 - ttl) w k ≡ false) × StaysYoung ttl w k ticks

  StaysYoung-same :
      (ttl : ℕ) (w w' : World b s) (k : Text) (ticks : List (Time × Time))
      → bl.view w'.0 k ≡ bl.view w.0 k
      → sl.entry w'.1 k ≡ sl.entry w.1 k
      → StaysYoung ttl w k ticks
      → StaysYoung ttl w' k ticks
  unfolding StaysYoung
  StaysYoung-same ttl w w' k [] p q h = tt
  StaysYoung-same ttl w w' k (t ∷ ticks) p q h =
      (rw (p, q) h.0, StaysYoung-same ttl w w' k ticks p q h.1)

  run_ticks_spares :
      (ticks : List (Time × Time)) (c : Cleaner) (w : World b s) (k : Text)
      → BothSound w
      → StaysYoung c.ttl w k ticks
      → (bl.view (run_ticks b s ticks c w).0.0 k ≡ bl.view w.0 k)
        × (sl.entry (run_ticks b s ticks c w).0.1 k ≡ sl.entry w.1 k)
  unfolding run_ticks run StaysYoung
  run_ticks_spares [] c w k h y = (refl, refl)
  run_ticks_spares ((now, later) ∷ ticks) c w k h y =
      let w' = (sweep b s (later - c.ttl) w).1 in
      let (v, e) = sweep_spares bl sl (later - c.ttl) w k h.0 h.1 y.0 in
      let (v', e') =
        run_ticks_spares ticks (record c { last_run = now }) w' k
          (sweep-BothSound (later - c.ttl) w h) (StaysYoung-same c.ttl w w' k ticks v e y.1) in
      (v' ∙ v, e' ∙ e)

  -- However many runs the loop makes, and however many of them fail at any point, what the backend and
  -- the catalog hold at a hash stays, if it has expired in neither at the time of any of the runs, and
  -- if the backend and the store, which keep their laws, are sound when the loop starts.
  pub run_started_spares :
      (first : Time × Time) (ticks : List (Time × Time)) (interval : ℕ) (c : Cleaner)
      (w : World b s) (k : Text)
      → bl.IsSound w.0
      → sl.IsSound w.1
      → StaysYoung c.ttl w k (first ∷ ticks)
      → (bl.view (run_started b s first ticks interval c w).0.0 k ≡ bl.view w.0 k)
        × (sl.entry (run_started b s first ticks interval c w).0.1 k ≡ sl.entry w.1 k)
  unfolding run_started
  run_started_spares first ticks interval c w k sound ssound y =
      run_ticks_spares (first ∷ ticks) (start interval c).1 w k (sound, ssound)
        (subst (λ ttl. StaysYoung ttl w k (first ∷ ticks)) (sym (ttl-start interval c)) y)
