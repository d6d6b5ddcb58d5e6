-- ===== src/Store/Object/Run.antt =====
-- internal/store/object.go: the methods that change the catalog, as one type of operations.
use nx_cache.Common.{ℕ, List, [], ◌∷◌, Text, Time}
use nx_cache.Store.Types.{TaskInfo, Entry}
use nx_cache.Store.Object.{
  upsert_entry, record_hit, record_miss, delete, ensure_entry, update_task_info, seed, Catalog,
}

pub data Operation : Type 0 where
  upsert : Text → ℕ → Time → TaskInfo → Operation
  hit_at : Text → Time → Operation
  miss_at : Time → Operation
  delete_all : List Text → Operation
  ensure : Text → ℕ → Time → Operation
  update : Text → TaskInfo → Operation
  put_back : Entry → Operation

unfoldable pub perform : Operation → Catalog → Catalog
perform (upsert hash size at info) o = (upsert_entry hash size at info o).1
perform (hit_at hash at) o = (record_hit hash at o).1
perform (miss_at at) o = (record_miss at o).1
perform (delete_all hashes) o = (delete hashes o).1
perform (ensure hash size at) o = (ensure_entry hash size at o).1
perform (update hash info) o = (update_task_info hash info o).1
perform (put_back e) o = (seed e o).1

-- Operations in the order in which `mu` lets them in.
unfoldable pub run : List Operation → Catalog → Catalog
run [] o = o
run (op ∷ ops) o = run ops (perform op o)

-- What every operation keeps, every run keeps.
pub run_induction {ℓ} :
    (P : Catalog → Type ℓ)
    → ((op : Operation) (o : Catalog) → P o → P (perform op o))
    → (ops : List Operation) (o : Catalog) → P o
    → P (run ops o)
unfolding run
run_induction P step [] o h = h
run_induction P step (op ∷ ops) o h = run_induction P step ops (perform op o) (step op o h)
