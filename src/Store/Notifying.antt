-- ===== src/Store/Notifying.antt =====
-- internal/store/notifying.go: a store that tells a notifier of the changes that succeeded.
pub mod Laws
use nx_cache.Common.{
  ℕ, suc, ◌-◌, ◌/◌, Bool, true, false, not, ◌&&◌, Option, none, some, List, [], ◌∷◌, ◌==◌,
  if◌then◌else◌, Text, is_empty, cut, Time,
}
use nx_cache.Storage.Types.{Fault, err}
use nx_cache.Store.Types.{is_empty_info, TaskInfo, Entry}
use nx_cache.Store.Interface.{Store}

-- The notifier is its state and what `Notify` does to it; a nil notifier does nothing.
module _ (inner : Store) {N : Type 0} (notifier : Option (N → N)) where
  unfoldable pub notify : N → N
  notify n = elim notifier [ none ↦ n | some f ↦ f n ]

  abbrev Both : Type 0
  Both = inner.State × N

  -- if err == nil && announced { n.notify() }; return err
  unfoldable pub announce : Bool → Option Fault × inner.State → N → Option Fault × Both
  unfolding notify
  announce announced (none, s) n = (none, (s, if announced then notify n else n))
  announce announced (some e, s) n = (some e, (s, n))

  unfoldable pub upsert_entry : Text → ℕ → Time → TaskInfo → Both → Option Fault × Both
  unfolding announce
  upsert_entry hash size at info (s, n) = announce true (inner.upsert_entry hash size at info s) n

  unfoldable pub record_hit : Text → Time → Both → Option Fault × Both
  unfolding announce
  record_hit hash at (s, n) = announce true (inner.record_hit hash at s) n

  unfoldable pub record_miss : Time → Both → Option Fault × Both
  unfolding announce
  record_miss at (s, n) = announce true (inner.record_miss at s) n

  -- len(hashes) > 0
  abbrev pub not_empty {ℓ} : {A : Type ℓ} → List A → Bool
  not_empty [] = false
  not_empty (x ∷ xs) = true

  unfoldable pub delete : List Text → Both → Option Fault × Both
  unfolding announce
  delete hashes (s, n) = announce (not_empty hashes) (inner.delete hashes s) n

  unfoldable pub ensure_entry : Text → ℕ → Time → Both → Option Fault × Both
  unfolding announce
  ensure_entry hash size at (s, n) = announce true (inner.ensure_entry hash size at s) n

  unfoldable pub update_task_info : Text → TaskInfo → Both → Option Fault × Both
  unfolding announce
  update_task_info hash info (s, n) =
      announce (not (is_empty_info info)) (inner.update_task_info hash info s) n

  unfoldable pub seed : Entry → Both → Option Fault × Both
  unfolding announce
  seed e (s, n) = announce true (inner.seed e s) n

  -- The other methods are those of the store inside.
  abbrev pub notifying : Store
  notifying = record {
    State = Both;
    upsert_entry = upsert_entry;
    record_hit = record_hit;
    record_miss = record_miss;
    list = λ query limit offset b. inner.list query limit offset b.0;
    list_older_than = λ cutoff b. inner.list_older_than cutoff b.0;
    delete = delete;
    stats = λ now b. inner.stats now b.0;
    ensure_entry = ensure_entry;
    update_task_info = update_task_info;
    seed = seed;
  }
