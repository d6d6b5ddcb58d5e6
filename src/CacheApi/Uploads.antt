-- ===== src/CacheApi/Uploads.antt =====
-- internal/cacheapi/handler.go: what an upload that is answered with 200 has stored.
use nx_cache.Common.{
  ℕ, ◌≡◌, refl, sym, ap, ◌∙◌, ◌≢◌, inl, inr, Bool, true, false, Option, none, some, arith,
  if◌then◌else◌, Bool-cases, length, Text, text_eq, text_eq_refl, is_empty, parse_int, Int64,
  natural, negative, take, ◌≤◌, take_of_length-le,
}
use nx_cache.Storage.Types.{
  Fault, Result, Stored, Backend, BackendLaws, not_found, already_exists, incomplete, load_failed,
  failure, ok, err,
}
use nx_cache.Store.Types.{TaskInfo}
use nx_cache.Store.Interface.{Store}
use nx_cache.NxArtifact.Kind.{from_headers, merge}
use nx_cache.CacheApi.{
  valid_hash, too_large, after_upsert, after_put, after_exists, put_sized, put_parsed, put,
  after_get, get, Config, Moments, PutRequest, World,
}
use nx_cache.CacheApi.Preserves.{maybe_clean-backend, put_absent, put_length, put_view}

module _ {b : Backend} {s : Store} (bl : BackendLaws b) where
  -- The object of an upload is stored at a hash that had none, with the declared size, and no other
  -- object is changed.
  pub record Accepted (r : PutRequest) (w w' : World b s) : Type 0 where
    pub valid : valid_hash r.hash ≡ true
    pub declared : parse_int r.content_length ≡ some (natural (length r.body.bytes))
    pub absent : bl.view w.backend r.hash ≡ none
    pub stored :
        (j : Text)
        → bl.view w'.backend j ≡ (
            if text_eq r.hash j
            then some (record { content = r.body.bytes; modified = bl.stamp w.backend })
            else bl.view w.backend j)

  -- The body is not longer than the request declares, where the backend takes it. The server of
  -- net/http sees to it, and so does a backend that reads on behind the declared size.
  abbrev pub IsLimited : PutRequest → World b s → Type 0
  IsLimited r w =
      (n : ℕ)
      → parse_int r.content_length ≡ some (natural n)
      → (b.put w.backend r.hash r.body n).0 ≡ none
      → length r.body.bytes ≤ n

  -- What is known before the size that the request declares comes in.
  record Written (r : PutRequest) (size : ℕ) (w w' : World b s) : Type 0 where
    enough : size ≤ length r.body.bytes
    taken : (b.put w.backend r.hash r.body size).0 ≡ none
    absent : bl.view w.backend r.hash ≡ none
    stored :
        (j : Text)
        → bl.view w'.backend j ≡ (
            if text_eq r.hash j
            then some (record { content = take size r.body.bytes; modified = bl.stamp w.backend })
            else bl.view w.backend j)

  after_upsert-Written :
      (cfg : Config) (m : Moments) (r : PutRequest) (size : ℕ) (u : Option Fault × s.State)
      (w : World b s) (bs : b.State)
      → b.put w.backend r.hash r.body size ≡ (none, bs)
      → (after_upsert cfg m r.hash u (record w { backend = bs })).0.status ≡ 200
      → Written r size w (after_upsert cfg m r.hash u (record w { backend = bs })).1
  unfolding after_upsert
  after_upsert-Written cfg m r size (some e, ss) w bs q h = ground arith
  after_upsert-Written cfg m r size (none, ss) w bs q h = record {
    enough = put_length bl r size w q;
    taken = ap (λ x. x.0) q;
    absent = put_absent bl r size w q;
    stored = λ j.
        ap (λ x. bl.view x j) (maybe_clean-backend cfg m (record w { backend = bs; store = ss }))
        ∙ put_view bl r size w q j;
  }

  after_put-Written :
      (inspect : Text → TaskInfo) (cfg : Config) (m : Moments) (r : PutRequest) (size : ℕ)
      (w : World b s) (a : Option Fault × b.State)
      → b.put w.backend r.hash r.body size ≡ a
      → (after_put inspect cfg m r size a w).0.status ≡ 200
      → Written r size w (after_put inspect cfg m r size a w).1
  unfolding after_put
  after_put-Written inspect cfg m r size w (some not_found, bs) q h = ground arith
  after_put-Written inspect cfg m r size w (some already_exists, bs) q h = ground arith
  after_put-Written inspect cfg m r size w (some incomplete, bs) q h = ground arith
  after_put-Written inspect cfg m r size w (some load_failed, bs) q h = ground arith
  after_put-Written inspect cfg m r size w (some failure, bs) q h = ground arith
  after_put-Written inspect cfg m r size w (none, bs) q h =
      let info = merge (from_headers r.headers) (inspect r.body.bytes) in
      after_upsert-Written cfg m r size (s.upsert_entry r.hash size m.now info w.store) w bs q h

  after_exists-Written :
      (inspect : Text → TaskInfo) (cfg : Config) (m : Moments) (r : PutRequest) (size : ℕ)
      (e : Result Bool) (w : World b s)
      → (after_exists inspect cfg m r size e w).0.status ≡ 200
      → Written r size w (after_exists inspect cfg m r size e w).1
  unfolding after_exists
  after_exists-Written inspect cfg m r size (err e) w h = ground arith
  after_exists-Written inspect cfg m r size (ok true) w h = ground arith
  after_exists-Written inspect cfg m r size (ok false) w h =
      after_put-Written inspect cfg m r size w (b.put w.backend r.hash r.body size) refl h

  put_parsed-Accepted :
      (inspect : Text → TaskInfo) (cfg : Config) (m : Moments) (r : PutRequest) (n : Option Int64)
      (w : World b s)
      → valid_hash r.hash ≡ true
      → parse_int r.content_length ≡ n
      → IsLimited r w
      → (put_parsed inspect cfg m r n w).0.status ≡ 200
      → Accepted r w (put_parsed inspect cfg m r n w).1
  unfolding put_parsed put_sized
  put_parsed-Accepted inspect cfg m r none w v q lim = λ h. ground arith
  put_parsed-Accepted inspect cfg m r (some (negative n)) w v q lim = λ h. ground arith
  put_parsed-Accepted inspect cfg m r (some (natural size)) w v q lim =
      elim (Bool-cases (too_large cfg.max_upload size)) [
        | inl g ↦ rw g (λ h. ground arith)
        | inr g ↦ rw g (λ h.
            let t = after_exists-Written inspect cfg m r size (b.exists w.backend r.hash) w h in
            let le = lim size q t.taken in
            let enough = t.enough in
            let sized : length r.body.bytes ≡ size = omega arith in
            let all = take_of_length-le size r.body.bytes le in
            record {
              valid = v;
              declared = q ∙ ap (λ k. some (natural k)) (sym sized);
              absent = t.absent;
              stored = λ j.
                  t.stored j
                  ∙ ap
                      (λ c.
                        if text_eq r.hash j
                        then some (record { content = c; modified = bl.stamp w.backend })
                        else bl.view w.backend j)
                      all;
            })
      ]

  -- An upload that is answered with 200, of a body that is not longer than declared wherever the
  -- backend takes it, has a valid hash, a Content-Length that is the number of its bytes, and a hash at which nothing was stored; after it the backend holds its bytes at that
  -- hash and what it held before everywhere else.
  pub put-Accepted :
      (inspect : Text → TaskInfo) (cfg : Config) (m : Moments) (r : PutRequest) (w : World b s)
      → IsLimited r w
      → (put inspect cfg m r w).0.status ≡ 200
      → Accepted r w (put inspect cfg m r w).1
  unfolding put
  put-Accepted inspect cfg m r w lim = elim (Bool-cases (valid_hash r.hash)) [
    | inr h ↦ rw h (λ e. ground arith)
    | inl h ↦ rw h (elim (Bool-cases (is_empty r.content_length)) [
      | inl g ↦ rw g (λ e. ground arith)
      | inr g ↦ rw g (put_parsed-Accepted inspect cfg m r (parse_int r.content_length) w h refl lim)
    ])
  ]

  -- The object that an upload stored is at its hash.
  stored_there :
      (inspect : Text → TaskInfo) (cfg : Config) (m : Moments) (r : PutRequest) (w : World b s)
      → IsLimited r w
      → (put inspect cfg m r w).0.status ≡ 200
      → (o : Stored) × (bl.view (put inspect cfg m r w).1.backend r.hash ≡ some o)
        × (o.content ≡ r.body.bytes)
  stored_there inspect cfg m r w lim h =
      let a = put-Accepted inspect cfg m r w lim h in
      (
        record { content = r.body.bytes; modified = bl.stamp w.backend },
        a.stored r.hash ∙ rw (text_eq_refl r.hash) refl,
        refl,
      )

  after_get-content :
      (m : Moments) (hash content : Text) (o : Stored) (g : Result (Text × ℕ)) (w : World b s)
      → b.get w.backend hash ≡ g
      → bl.view w.backend hash ≡ some o
      → o.content ≡ content
      → (after_get m hash g w).0.status ≢ 404
        × ((after_get m hash g w).0.status ≡ 200 → (after_get m hash g w).0.body ≡ content)
  unfolding after_get
  after_get-content m hash content o (err not_found) w q p e =
      let absent = bl.get_not_found w.backend hash q in absurd (cc)
  after_get-content m hash content o (err already_exists) w q p e =
      (λ h. ground arith, λ h. ground arith)
  after_get-content m hash content o (err incomplete) w q p e =
      (λ h. ground arith, λ h. ground arith)
  after_get-content m hash content o (err load_failed) w q p e =
      (λ h. ground arith, λ h. ground arith)
  after_get-content m hash content o (err failure) w q p e = (λ h. ground arith, λ h. ground arith)
  after_get-content m hash content o (ok (c, n)) w q p e =
      let (o', p', same, k) = bl.get_ok w.backend hash c n q in
      let both : some o' ≡ some o = sym p' ∙ p in
      let one : o' ≡ o = cc in (λ h. ground arith, λ h. sym same ∙ ap (λ x. x.content) one ∙ e)

  -- What a download of a hash right after an upload to it that was answered with 200 may answer.
  get_after_put :
      (inspect : Text → TaskInfo) (cfg : Config) (m m' : Moments) (r : PutRequest) (w : World b s)
      → IsLimited r w
      → (put inspect cfg m r w).0.status ≡ 200
      → (get m' r.hash (put inspect cfg m r w).1).0.status ≢ 404
        × ((get m' r.hash (put inspect cfg m r w).1).0.status ≡ 200
            → (get m' r.hash (put inspect cfg m r w).1).0.body ≡ r.body.bytes)
  unfolding get
  get_after_put inspect cfg m m' r w lim h =
      let w' = (put inspect cfg m r w).1 in
      let (o, p, same) = stored_there inspect cfg m r w lim h in
      rw (put-Accepted inspect cfg m r w lim h).valid
        (after_get-content m' r.hash r.body.bytes o (b.get w'.backend r.hash) w' refl p same)

  -- A download of a hash right after an upload to it that was answered with 200 is not answered with
  -- 404, where the upload's body is not longer than declared if the backend takes it.
  pub get-put_found :
      (inspect : Text → TaskInfo) (cfg : Config) (m m' : Moments) (r : PutRequest) (w : World b s)
      → IsLimited r w
      → (put inspect cfg m r w).0.status ≡ 200
      → (get m' r.hash (put inspect cfg m r w).1).0.status ≢ 404
  get-put_found inspect cfg m m' r w lim h = (get_after_put inspect cfg m m' r w lim h).0

  -- A download of a hash that is answered with 200, right after an upload to it that was answered
  -- with 200, has the upload's bytes as its body, where the upload's body is not longer than declared
  -- if the backend takes it.
  pub get-put :
      (inspect : Text → TaskInfo) (cfg : Config) (m m' : Moments) (r : PutRequest) (w : World b s)
      → IsLimited r w
      → (put inspect cfg m r w).0.status ≡ 200
      → (get m' r.hash (put inspect cfg m r w).1).0.status ≡ 200
      → (get m' r.hash (put inspect cfg m r w).1).0.body ≡ r.body.bytes
  get-put inspect cfg m m' r w lim h = (get_after_put inspect cfg m m' r w lim h).1
