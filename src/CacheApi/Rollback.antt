-- ===== src/CacheApi/Rollback.antt =====
-- internal/cacheapi/handler.go over `DB` of internal/store/store.go: an upload whose entry is written
-- and whose counter is not.
use nx_cache.Common.{
  ℕ, ◌+◌, ◌≡◌, refl, sym, subst, true, Option, none, some, [], ◌∷◌, arith, Text, text_eq_refl,
  lookup, lookup-insert, mem, Time,
}
use nx_cache.Storage.Types.{is_some, Fault, Backend, BackendLaws, failure}
use nx_cache.Store.Types.{TaskInfo}
use nx_cache.Store.Db.Statements.{db_store}
use nx_cache.Store.Db.{answered, exec, and_then, bump, upsert_entry, Db}
use nx_cache.CacheApi.{after_upsert, Config, Moments, World}

-- The two statements that `UpsertEntry` begins with, by what is answered.
module _ (hash : Text) (size : ℕ) (at : Time) (info : TaskInfo) (d : Db) (m : Text) where
  pub upsert_entry-partly :
      d.answers d.runs ≡ none
      → d.answers (d.runs + 1) ≡ some m
      → ((upsert_entry hash size at info d).0 ≡ some failure)
        × (is_some (lookup hash (upsert_entry hash size at info d).1.tables.cache_entries) ≡ true)
  unfolding upsert_entry bump exec and_then answered
  upsert_entry-partly p q = rw (p, q) (refl, rw lookup-insert (ground (arith, text_eq_refl hash)))

module _ {b : Backend} (bl : BackendLaws b) where
  rolled_back :
      (cfg : Config) (ms : Moments) (hash : Text) (u : Option Fault × Db) (w : World b db_store)
      → u.0 ≡ some failure
      → (b.delete w.backend (hash ∷ [])).0 ≡ none
      → let r = after_upsert cfg ms hash u w in
        (r.0.status ≡ 500) × (bl.view r.1.backend hash ≡ none) × (r.1.store ≡ u.1)
  unfolding after_upsert mem
  rolled_back cfg ms hash (none, d) w p q = absurd (cc)
  rolled_back cfg ms hash (some e, d) w p q =
      (refl, ground (arith, bl.delete_ok w.backend (hash ∷ []) q hash, text_eq_refl hash), refl)

  -- Where SQLite takes the row of an upload and refuses to count it, the answer is 500 and the object is
  -- removed again, if the backend can remove it, but the catalog keeps an entry under its hash.
  pub after_upsert-dangling :
      (cfg : Config) (ms : Moments) (hash : Text) (size : ℕ) (at : Time) (info : TaskInfo)
      (w : World b db_store) (m : Text)
      → w.store.answers w.store.runs ≡ none
      → w.store.answers (w.store.runs + 1) ≡ some m
      → (b.delete w.backend (hash ∷ [])).0 ≡ none
      → let r = after_upsert cfg ms hash (upsert_entry hash size at info w.store) w in
        (r.0.status ≡ 500)
        × (bl.view r.1.backend hash ≡ none)
        × (is_some (lookup hash r.1.store.tables.cache_entries) ≡ true)
  after_upsert-dangling cfg ms hash size at info w m p q del =
      let (e, row) = upsert_entry-partly hash size at info w.store m p q in
      let (st, gone, same) = rolled_back cfg ms hash _ w e del in
      (st, gone, subst (λ d. is_some (lookup hash d.tables.cache_entries) ≡ true) (sym same) row)
