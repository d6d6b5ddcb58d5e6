-- ===== src/Server/Purged.antt =====
-- internal/httpserver/server.go: what the removal of an entry leaves.
use nx_cache.Common.{
  ℕ, ◌≡◌, refl, ap, sym, ◌∙◌, inl, inr, true, Option, none, some, [], ◌∷◌, arith, if◌then◌else◌,
  Bool-cases, Text, mem,
}
use nx_cache.Storage.Types.{Backend, BackendLaws, Fault}
use nx_cache.Store.Interface.{Store, StoreLaws}
use nx_cache.Auth.{Crypto}
use nx_cache.CacheApi.{valid_hash, World}
use nx_cache.Server.Types.{HttpRequest, ServerConfig}
use nx_cache.Server.Login.{valid_csrf}
use nx_cache.Server.Pages.{delete_entry, purge, after_purge}

module _ {b : Backend} {s : Store} (bl : BackendLaws b) (sl : StoreLaws s) where
  -- Neither the backend nor the catalog holds the hash, and both hold at every other hash what they
  -- held before.
  pub record Purged (hash : Text) (w w' : World b s) : Type 0 where
    pub no_object :
        (j : Text)
        → bl.view w'.backend j ≡ (if mem j (hash ∷ []) then none else bl.view w.backend j)
    pub no_entry :
        (j : Text) → sl.entry w'.store j ≡ (if mem j (hash ∷ []) then none else sl.entry w.store j)

  after_purge-Purged :
      (hash : Text) (bs : b.State) (w : World b s) (a : Option Fault × s.State)
      → b.delete w.backend (hash ∷ []) ≡ (none, bs)
      → s.delete (hash ∷ []) w.store ≡ a
      → (after_purge hash (none, bs) w a).0.status ≡ 303
      → Purged hash w (after_purge hash (none, bs) w a).1
  unfolding after_purge
  after_purge-Purged hash bs w (some e, ss) p q h = ground arith
  after_purge-Purged hash bs w (none, ss) p q h = record {
    no_object = λ j.
        ap (λ x. bl.view x.1 j) (sym p) ∙ bl.delete_ok w.backend (hash ∷ []) (ap (λ x. x.0) p) j;
    no_entry = λ j.
        ap (λ x. sl.entry x.1 j) (sym q) ∙ sl.delete_ok w.store (hash ∷ []) j (ap (λ x. x.0) q);
  }

  purge-Purged :
      (hash : Text) (w : World b s) (a : Option Fault × b.State)
      → b.delete w.backend (hash ∷ []) ≡ a
      → (purge hash w a).0.status ≡ 303
      → Purged hash w (purge hash w a).1
  unfolding purge
  purge-Purged hash w (some e, bs) p h = ground arith
  purge-Purged hash w (none, bs) p h = after_purge-Purged hash bs w _ p refl h

  -- A removal that sends the client back to the dashboard had a session with its CSRF token and a
  -- valid hash; after it neither the backend nor the catalog holds the hash, and nothing is changed
  -- at the others, over a backend and a store that keep their laws.
  pub delete_entry-Purged :
      {N : Type 0} (crypto : Crypto) (cfg : ServerConfig N) (hash : Text) (r : HttpRequest)
      (now : ℕ) (w : World b s)
      → (delete_entry crypto cfg hash r now w).0.status ≡ 303
      → (valid_csrf crypto cfg r now ≡ true)
        × (valid_hash hash ≡ true)
        × Purged hash w (delete_entry crypto cfg hash r now w).1
  unfolding delete_entry
  delete_entry-Purged crypto cfg hash r now w = elim (Bool-cases (valid_csrf crypto cfg r now)) [
    | inr h ↦ rw h (λ e. ground arith)
    | inl h ↦ rw h (elim (Bool-cases (valid_hash hash)) [
      | inr g ↦ rw g (λ e. ground arith)
      | inl g ↦
          rw g (λ e. (refl, refl, purge-Purged hash w (b.delete w.backend (hash ∷ [])) refl e))
    ])
  ]
