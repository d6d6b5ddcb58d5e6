-- ===== src/Store/Interface.antt =====
-- internal/store/store.go: the interface `Store`, what its clients rely on, and the catalog in
-- memory as an implementation.
use nx_cache.Common.{
  ℕ, Int64, ◌≡◌, refl, false, Option, none, List, [], ◌∷◌, arith, if◌then◌else◌, any, Text, text_eq,
  lookup, mem, lookup-remove_all, Time, second, ◌≤◌, ◌<◌, ◌+◌,
}
use nx_cache.Storage.Types.{Fault, Result, ok}
use nx_cache.Store.Types.{Letters, TaskInfo, Entry, Stats}
use nx_cache.Store.Object.Run.{
  perform, Operation, upsert, hit_at, miss_at, delete_all, ensure, update, put_back,
}
use nx_cache.Store.Object.Entries.{perform-IsKeyed, IsKeyed}
use nx_cache.Store.Object.Listing.{is_older, list_older_than_iff}
use nx_cache.Store.Object.{hit, Catalog}
use nx_cache.Store.Object

-- A method that changes the store returns its error, if any, and the new state.
pub record Store : Type 1 where
  pub State : Type 0
  pub upsert_entry : Text → ℕ → Time → TaskInfo → State → Option Fault × State
  pub record_hit : Text → Time → State → Option Fault × State
  pub record_miss : Time → State → Option Fault × State
  pub list : Text → ℕ → Int64 → State → Result (List Entry × ℕ)
  pub list_older_than : Time → State → Result (List Entry)
  pub delete : List Text → State → Option Fault × State
  pub stats : Time → State → Result Stats
  pub ensure_entry : Text → ℕ → Time → State → Option Fault × State
  pub update_task_info : Text → TaskInfo → State → Option Fault × State
  pub seed : Entry → State → Option Fault × State

-- A call of one of the methods that change the store.
unfoldable pub call : (s : Store) → Operation → s.State → Option Fault × s.State
call s (upsert hash size at info) = s.upsert_entry hash size at info
call s (hit_at hash at) = s.record_hit hash at
call s (miss_at at) = s.record_miss at
call s (delete_all hashes) = s.delete hashes
call s (ensure hash size at) = s.ensure_entry hash size at
call s (update hash info) = s.update_task_info hash info
call s (put_back e) = s.seed e

-- What the cleanup and the handlers rely on, over the entries that a store holds.
pub record StoreLaws (s : Store) : Type 1 where
  pub IsSound : s.State → Type 0
  pub entry : s.State → Text → Option Entry
  -- A store that keeps whole seconds compares with the second of the cutoff.
  pub mark : Time → Time
  pub mark_near : (t : Time) → (mark t ≤ t) × (t < mark t + second)
  pub call_IsSound : (op : Operation) (st : s.State) → IsSound st → IsSound (call s op st).1
  pub list_older_ok :
      (st : s.State) (cutoff : Time) (es : List Entry) (k : Text)
      → IsSound st
      → s.list_older_than cutoff st ≡ ok es
      → any (λ e. text_eq e.hash k) es ≡ is_older (mark cutoff) (entry st k)
  pub delete_ok :
      (st : s.State) (ks : List Text) (k : Text)
      → (s.delete ks st).0 ≡ none
      → entry (s.delete ks st).1 k ≡ (if mem k ks then none else entry st k)
  pub delete_keeps :
      (st : s.State) (ks : List Text) (k : Text)
      → mem k ks ≡ false
      → entry (s.delete ks st).1 k ≡ entry st k

abbrev pub object_store : Letters → Store
object_store u = record {
  State = Catalog;
  upsert_entry = Object.upsert_entry;
  record_hit = Object.record_hit;
  record_miss = Object.record_miss;
  list = Object.list u;
  list_older_than = Object.list_older_than;
  delete = Object.delete;
  stats = Object.stats;
  ensure_entry = Object.ensure_entry;
  update_task_info = Object.update_task_info;
  seed = Object.seed;
}

call-perform :
    (u : Letters) (op : Operation) (o : Catalog) → (call (object_store u) op o).1 ≡ perform op o
unfolding call perform
call-perform u (upsert hash size at info) o = refl
call-perform u _ o = refl

pub call-IsKeyed :
    (u : Letters) (op : Operation) (o : Catalog)
    → IsKeyed o.entries
    → IsKeyed (call (object_store u) op o).1.entries
call-IsKeyed u op o h = rw call-perform (perform-IsKeyed op o h)

pub lookup-delete :
    (o : Catalog) (ks : List Text) (k : Text)
    → (Object.delete ks o).0 ≡ none
    → lookup k (Object.delete ks o).1.entries ≡ (if mem k ks then none else lookup k o.entries)
unfolding Object.delete mem
lookup-delete o [] k p = refl
lookup-delete o (h ∷ ks) k p = lookup-remove_all (h ∷ ks) k o.entries

delete-nil : (ks : List Text) (o : Catalog) → (Object.delete ks o).0 ≡ none
unfolding Object.delete
delete-nil [] o = refl
delete-nil (k ∷ ks) o = refl

pub lookup-delete_keeps :
    (o : Catalog) (ks : List Text) (k : Text)
    → mem k ks ≡ false
    → lookup k (Object.delete ks o).1.entries ≡ lookup k o.entries
lookup-delete_keeps o ks k h = ground (arith, lookup-delete o ks k (delete-nil ks o))

abbrev pub object_laws : (u : Letters) → StoreLaws (object_store u)
object_laws u = record {
  IsSound = λ o. IsKeyed o.entries;
  entry = λ o k. lookup k o.entries;
  mark = λ t. t;
  mark_near = λ t. (omega arith, omega arith);
  call_IsSound = call-IsKeyed u;
  list_older_ok = λ o cutoff es k h p. list_older_than_iff o cutoff es k h p;
  delete_ok = lookup-delete;
  delete_keeps = lookup-delete_keeps;
}
