-- ===== src/CacheApi/Preserves.antt =====
-- internal/cacheapi/handler.go: no upload changes what is stored already.
use nx_cache.Common.{
  ℕ, ◌≡◌, refl, sym, ap, ◌∙◌, inl, inr, Bool, true, false, ◌&&◌, Option, none, some, [], ◌∷◌, arith,
  if◌then◌else◌, Bool-cases, length, take, ◌≤◌, Text, text_eq, text_eq_iff, is_empty, mem_one,
  parse_int, Int64, natural, negative, Time,
}
use nx_cache.Storage.Types.{
  Fault, Result, Stored, Backend, BackendLaws, not_found, already_exists, incomplete, load_failed,
  failure, ok, err,
}
use nx_cache.Store.Types.{TaskInfo}
use nx_cache.Store.Interface.{Store}
use nx_cache.NxArtifact.Kind.{from_headers, merge}
use nx_cache.Metrics.{Collector}
use nx_cache.CacheApi.{
  valid_hash, too_large, observe_with, maybe_clean, after_upsert, after_put, after_exists,
  put_sized, put_parsed, put, Config, Moments, PutRequest, World,
}

module _ {b : Backend} {s : Store} where
  pub observe_with-backend :
      (f : Collector → Collector) (t : Time) (w : World b s)
      → (observe_with f t w).backend ≡ w.backend
  unfolding observe_with
  observe_with-backend f t w = refl

  pub maybe_clean-backend :
      (cfg : Config) (m : Moments) (w : World b s) → (maybe_clean cfg m w).backend ≡ w.backend
  unfolding maybe_clean
  maybe_clean-backend cfg m w = elim (Bool-cases (cfg.cleanup_on_save && cfg.has_cleaner)) [
    | inl h ↦ rw h refl
    | inr h ↦ rw h refl
  ]

-- Every object of the first view is in the second.
abbrev pub Keeps : (Text → Option Stored) → (Text → Option Stored) → Type 0
Keeps v v' = (j : Text) (o : Stored) → v j ≡ some o → v' j ≡ some o

mem_other :
    (v : Text → Option Stored) (hash j : Text) (o : Stored)
    → v hash ≡ none
    → v j ≡ some o
    → text_eq hash j ≡ false
mem_other v hash j o absent p = ground (arith, text_eq_iff hash j)

module _ {b : Backend} {s : Store} (bl : BackendLaws b) where
  after_upsert-Keeps :
      (cfg : Config) (m : Moments) (hash : Text) (u : Option Fault × s.State) (w : World b s)
      (v : Text → Option Stored)
      → v hash ≡ none
      → Keeps v (bl.view w.backend)
      → Keeps v (bl.view (after_upsert cfg m hash u w).1.backend)
  unfolding after_upsert
  after_upsert-Keeps cfg m hash (some e, ss) w v absent kept j o p =
      bl.delete_keeps w.backend (hash ∷ []) j (mem_one hash j (mem_other v hash j o absent p))
      ∙ kept j o p
  after_upsert-Keeps cfg m hash (none, ss) w v absent kept j o p =
      ap (λ x. bl.view x j) (maybe_clean-backend cfg m (record w { store = ss })) ∙ kept j o p

  -- What an answer of `b.put` says of the views before and after.
  module _ (r : PutRequest) (size : ℕ) (w : World b s) where
    put_err-Keeps :
        {e : Fault} {bs : b.State}
        → b.put w.backend r.hash r.body size ≡ (some e, bs)
        → Keeps (bl.view w.backend) (bl.view bs)
    put_err-Keeps {e} {bs} q j o p =
        sym (ap (λ x. bl.view x.1 j) q)
        ∙ bl.put_err w.backend r.hash r.body size e (ap (λ x. x.0) q) j o p

    pub put_absent :
        {bs : b.State}
        → b.put w.backend r.hash r.body size ≡ (none, bs)
        → bl.view w.backend r.hash ≡ none
    put_absent q = (bl.put_ok w.backend r.hash r.body size (ap (λ x. x.0) q)).0

    pub put_length :
        {bs : b.State}
        → b.put w.backend r.hash r.body size ≡ (none, bs)
        → size ≤ length r.body.bytes
    put_length q = (bl.put_ok w.backend r.hash r.body size (ap (λ x. x.0) q)).1

    pub put_view :
        {bs : b.State}
        → b.put w.backend r.hash r.body size ≡ (none, bs)
        → (j : Text)
        → bl.view bs j ≡ (
            if text_eq r.hash j
            then some (record { content = take size r.body.bytes; modified = bl.stamp w.backend })
            else bl.view w.backend j)
    put_view q j =
        sym (ap (λ x. bl.view x.1 j) q)
        ∙ (bl.put_ok w.backend r.hash r.body size (ap (λ x. x.0) q)).2 j

    put_ok-Keeps :
        {bs : b.State}
        → b.put w.backend r.hash r.body size ≡ (none, bs)
        → Keeps (bl.view w.backend) (bl.view bs)
    put_ok-Keeps q j o p =
        put_view q j ∙ rw (mem_other (bl.view w.backend) r.hash j o (put_absent q) p) p

  after_put-Keeps :
      (inspect : Text → TaskInfo) (cfg : Config) (m : Moments) (r : PutRequest) (size : ℕ)
      (w : World b s) (a : Option Fault × b.State)
      → b.put w.backend r.hash r.body size ≡ a
      → Keeps (bl.view w.backend) (bl.view (after_put inspect cfg m r size a w).1.backend)
  unfolding after_put
  after_put-Keeps inspect cfg m r size w (some not_found, bs) q j o p =
      put_err-Keeps r size w q j o p
  after_put-Keeps inspect cfg m r size w (some already_exists, bs) q j o p =
      put_err-Keeps r size w q j o p
  after_put-Keeps inspect cfg m r size w (some incomplete, bs) q j o p =
      put_err-Keeps r size w q j o p
  after_put-Keeps inspect cfg m r size w (some load_failed, bs) q j o p =
      put_err-Keeps r size w q j o p
  after_put-Keeps inspect cfg m r size w (some failure, bs) q j o p = put_err-Keeps r size w q j o p
  after_put-Keeps inspect cfg m r size w (none, bs) q j o p =
      let info = merge (from_headers r.headers) (inspect r.body.bytes) in
      after_upsert-Keeps cfg m r.hash (s.upsert_entry r.hash size m.now info w.store)
        (record w { backend = bs }) (bl.view w.backend) (put_absent r size w q)
        (put_ok-Keeps r size w q) j o p

  after_exists-Keeps :
      (inspect : Text → TaskInfo) (cfg : Config) (m : Moments) (r : PutRequest) (size : ℕ)
      (e : Result Bool) (w : World b s)
      → Keeps (bl.view w.backend) (bl.view (after_exists inspect cfg m r size e w).1.backend)
  unfolding after_exists
  after_exists-Keeps inspect cfg m r size (err e) w j o p = p
  after_exists-Keeps inspect cfg m r size (ok true) w j o p = p
  after_exists-Keeps inspect cfg m r size (ok false) w j o p =
      after_put-Keeps inspect cfg m r size w (b.put w.backend r.hash r.body size) refl j o p

  put_parsed-Keeps :
      (inspect : Text → TaskInfo) (cfg : Config) (m : Moments) (r : PutRequest) (n : Option Int64)
      (w : World b s)
      → Keeps (bl.view w.backend) (bl.view (put_parsed inspect cfg m r n w).1.backend)
  unfolding put_parsed put_sized
  put_parsed-Keeps inspect cfg m r none w j o p = p
  put_parsed-Keeps inspect cfg m r (some (negative n)) w j o p = p
  put_parsed-Keeps inspect cfg m r (some (natural size)) w j o p =
      elim (Bool-cases (too_large cfg.max_upload size)) [
        | inl h ↦ rw h p
        | inr h ↦ rw h (after_exists-Keeps inspect cfg m r size (b.exists w.backend r.hash) w j o p)
      ]

  -- An upload, whatever it answers and wherever it fails, keeps every object that was stored
  -- before it, its content and its time of modification; the rollback after a failed catalog
  -- update too.
  pub put-keeps :
      (inspect : Text → TaskInfo) (cfg : Config) (m : Moments) (r : PutRequest) (w : World b s)
      (j : Text) (o : Stored)
      → bl.view w.backend j ≡ some o
      → bl.view (put inspect cfg m r w).1.backend j ≡ some o
  unfolding put
  put-keeps inspect cfg m r w j o p = elim (Bool-cases (valid_hash r.hash)) [
    | inr h ↦ rw h p
    | inl h ↦ rw h (elim (Bool-cases (is_empty r.content_length)) [
      | inl g ↦ rw g p
      | inr g ↦ rw g (put_parsed-Keeps inspect cfg m r (parse_int r.content_length) w j o p)
    ])
  ]
