-- ===== src/Reconcile.antt =====
-- cmd/server/main.go: the goroutine that brings the catalog in line with the backend after a start.
-- `now` is the reading of the clock for the objects without a time.
pub mod Covered
use nx_cache.Common.{
  ℕ, not, Bool, ◌&&◌, ◌||◌, List, [], ◌∷◌, if◌then◌else◌, length, Text, is_empty, Time, is_zero,
  natural,
}
use nx_cache.Storage.Types.{Result, Object, Backend, ok, err}
use nx_cache.Store.Types.{label, is_empty_info, TaskInfo, Entry}
use nx_cache.Store.Interface.{Store}

module _ (b : Backend) (s : Store) (inspect : Text → TaskInfo) where
  -- The loop over the objects. An error of EnsureEntry is logged.
  unfoldable pub ensure_all : Time → List Object → s.State → s.State
  ensure_all now [] st = st
  ensure_all now (o ∷ os) st =
      let at = if is_zero o.last_modified then now else o.last_modified in
      ensure_all now os (s.ensure_entry o.hash o.size at st).1

  unfoldable pub reclassified : Text → Result (Text × ℕ) → s.State → s.State
  reclassified hash (err e) st = st
  reclassified hash (ok (body, n)) st =
      let info = inspect body in
      if is_empty_info info then st else (s.update_task_info hash info st).1

  -- The loop over the entries.
  unfoldable pub reclassify : b.State → List Entry → s.State → s.State
  unfolding reclassified label
  reclassify bs [] st = st
  reclassify bs (e ∷ es) st =
      let named = not (is_empty (label e.info)) && not (is_empty e.info.kind) in
      reclassify bs es (if named then st else reclassified e.hash (b.get bs e.hash) st)

  unfoldable pub with_listed : b.State → Result (List Entry × ℕ) → s.State → s.State
  unfolding reclassify
  with_listed bs (err e) st = st
  with_listed bs (ok (es, total)) st = reclassify bs es st

  unfoldable pub with_objects : Time → b.State → Result (List Object) → s.State → s.State
  unfolding ensure_all with_listed
  with_objects now bs (err e) st = st
  with_objects now bs (ok objects) st =
      let known = ensure_all now objects st in
      with_listed bs (s.list [] (length objects) (natural 0) known) known

  unfoldable pub reconcile : Time → b.State → s.State → s.State
  unfolding with_objects
  reconcile now bs st = with_objects now bs (b.list bs) st
