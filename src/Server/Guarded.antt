-- ===== src/Server/Guarded.antt =====
-- internal/httpserver/server.go: what the checks before the handlers keep from changing.
use nx_cache.Common.{
  subst, false≢true, ℕ, natural, ◌≡◌, refl, ap, sym, ◌∙◌, inl, inr, Bool, true, false, not, ◌||◌,
  Option, none, some, Bool-cases, Text, text_eq,
}
use nx_cache.Storage.Types.{
  Backend, Result, ok, err, not_found, already_exists, incomplete, load_failed, failure,
}
use nx_cache.Store.Interface.{Store}
use nx_cache.Auth.{Verdict, allowed, denied, bearer_ok, check_password}
use nx_cache.ClientIp.{ip_allowed}
use nx_cache.LoginGate.{allow}
use nx_cache.Metrics.{observe_read}
use nx_cache.CacheApi.{after_get, get, valid_hash, Moments, World}
use nx_cache.CacheApi.Preserves.{observe_with-backend}
use nx_cache.Server.Types.{
  Route, HttpRequest, Answer, Site, Handler, Readings, health, static_file, login_get, login_post,
  dashboard, entries, stats, cleanup_now, logout, unknown, cache_put, cache_get, cache_head,
  delete_entry,
}
use nx_cache.Server.Login.{
  after_verdict, after_user, bearer, require_session, user_of, valid_csrf, request_ip,
}
use nx_cache.Server.Login
use nx_cache.Server.Pages
use nx_cache.Server.Routes.{
  Deployment, is_health, no_nets, put_handler, get_handler, cleanup_handler, delete_handler, route,
  allowlist, rate_limit, serve,
}

abbrev pub is_allowed : Verdict → Bool
is_allowed allowed = true
is_allowed (denied status message) = false

module _ {b : Backend} {s : Store} where
  after_get-backend :
      (m : Moments) (hash : Text) (g : Result (Text × ℕ)) (w : World b s)
      → (after_get m hash g w).2.backend ≡ w.backend
  unfolding after_get
  after_get-backend m hash (err not_found) w = refl
  after_get-backend m hash (err already_exists) w = refl
  after_get-backend m hash (err incomplete) w = refl
  after_get-backend m hash (err load_failed) w = refl
  after_get-backend m hash (err failure) w = refl
  after_get-backend m hash (ok (content, n)) w = refl

  get-backend : (m : Moments) (hash : Text) (w : World b s) → (get m hash w).1.backend ≡ w.backend
  unfolding get
  get-backend m hash w = elim (Bool-cases (valid_hash hash)) [
    | inl h ↦ rw h (
        observe_with-backend
          (observe_read m.elapsed (natural (after_get m hash (b.get w.backend hash) w).1))
          m.notified (after_get m hash (b.get w.backend hash) w).2
        ∙ after_get-backend m hash (b.get w.backend hash) w)
    | inr h ↦ rw h refl
  ]

module _ {N : Type 0} (d : Deployment N) where
  abbrev pub verdict_of : Bool → HttpRequest → Verdict
  verdict_of write r =
      bearer_ok d.crypto r.authorization d.settings.access_token d.settings.read_token write

  -- Whether a request may write: an upload with a token for writing, and a form of the pages with its
  -- session and its CSRF token.
  abbrev pub may_write : ℕ → Route → HttpRequest → Bool
  may_write now (cache_put hash) r = is_allowed (verdict_of true r)
  may_write now cleanup_now r = valid_csrf d.crypto d.settings r now
  may_write now (delete_entry hash) r = valid_csrf d.crypto d.settings r now
  may_write now _ r = false

  -- Whether a request may change anything but the gate of failed logins: one that may write, and a
  -- download with a token.
  abbrev pub may_change : ℕ → Route → HttpRequest → Bool
  may_change now (cache_put hash) r = is_allowed (verdict_of true r)
  may_change now (cache_get hash) r = is_allowed (verdict_of false r)
  may_change now cleanup_now r = valid_csrf d.crypto d.settings r now
  may_change now (delete_entry hash) r = valid_csrf d.crypto d.settings r now
  may_change now _ r = false

module _ {N : Type 0} (d : Deployment N) {b : Backend} {s : Store} {X : Type 0}
    (f : World b s → X) where
  -- Where an answer leaves a part of the world as it was.
  abbrev pub Spares : Site b s → Option Answer × Site b s → Type 0
  Spares w a = f a.1.world ≡ f w.world

  verdict-Spares :
      (v : Verdict) (next : Handler b s) (r : HttpRequest) (w : Site b s)
      → (is_allowed v ≡ true → Spares w (next r w))
      → Spares w (after_verdict v next r w)
  unfolding after_verdict
  verdict-Spares allowed next r w go = go refl
  verdict-Spares (denied status message) next r w go = refl

  user-Spares :
      (u : Option Text) (next : Handler b s) (r : HttpRequest) (w : Site b s)
      → Spares w (next r w)
      → Spares w (after_user u next r w)
  unfolding after_user
  user-Spares (some user) next r w go = go
  user-Spares none next r w go = refl

  login_allowed-Spares :
      (t now : ℕ) (ip : Text) (r : HttpRequest) (let_in : Bool) (w : Site b s)
      → f (Login.login_allowed d.crypto d.addresses d.settings t now ip r let_in w).1.world
        ≡ f w.world
  unfolding Login.login_allowed Login.login_form
  login_allowed-Spares t now ip r false w = refl
  login_allowed-Spares t now ip r true w = elim (Bool-cases (not r.form)) [
    | inl broken ↦ rw broken refl
    | inr whole ↦
        rw whole
          (elim (Bool-cases (
            not (text_eq r.username d.settings.ui_username)
            || not (check_password d.crypto r.password d.settings.ui_password))) [
              | inl wrong ↦ rw wrong refl
              | inr right ↦ rw right refl
            ])
  ]

  -- What the handlers do that a check stands before.
  record Handlers (t : Readings) (r : HttpRequest) (w : Site b s) : Type 0 where
    puts :
        (hash : Text)
        → r.route ≡ cache_put hash
        → is_allowed (verdict_of d true r) ≡ true
        → Spares w (put_handler d t hash r w)
    gets :
        (hash : Text)
        → r.route ≡ cache_get hash
        → is_allowed (verdict_of d false r) ≡ true
        → Spares w (get_handler d t hash r w)
    cleans : r.route ≡ cleanup_now → Spares w (cleanup_handler d t r w)
    deletes : (hash : Text) → r.route ≡ delete_entry hash → Spares w (delete_handler d t hash r w)

  route-Spares :
      (t : Readings) (r : HttpRequest) (w : Site b s) (rt : Route)
      → r.route ≡ rt
      → Handlers t r w
      → Spares w (route d t rt r w)
  unfolding route Login.login_post
  route-Spares t r w (cache_put hash) q h =
      verdict-Spares (verdict_of d true r) _ r w (h.puts hash q)
  route-Spares t r w (cache_get hash) q h =
      verdict-Spares (verdict_of d false r) _ r w (h.gets hash q)
  route-Spares t r w (cache_head hash) q h = verdict-Spares (verdict_of d false r) _ r w (λ p. refl)
  route-Spares t r w login_post q h =
      login_allowed-Spares t.clock t.seconds (request_ip d.crypto d.addresses d.settings r) r
        (allow t.clock (request_ip d.crypto d.addresses d.settings r) w.logins).0
        (record w {
          logins = (allow t.clock (request_ip d.crypto d.addresses d.settings r) w.logins).1;
        })
  route-Spares t r w dashboard q h =
      user-Spares (user_of d.crypto d.settings r t.seconds) _ r w refl
  route-Spares t r w entries q h = user-Spares (user_of d.crypto d.settings r t.seconds) _ r w refl
  route-Spares t r w stats q h = user-Spares (user_of d.crypto d.settings r t.seconds) _ r w refl
  route-Spares t r w logout q h = user-Spares (user_of d.crypto d.settings r t.seconds) _ r w refl
  route-Spares t r w cleanup_now q h =
      user-Spares (user_of d.crypto d.settings r t.seconds) _ r w (h.cleans q)
  route-Spares t r w (delete_entry hash) q h =
      user-Spares (user_of d.crypto d.settings r t.seconds) _ r w (h.deletes hash q)
  route-Spares t r w health q h = refl
  route-Spares t r w static_file q h = refl
  route-Spares t r w login_get q h = refl
  route-Spares t r w unknown q h = refl

  serve-Spares :
      (t : Readings) (r : HttpRequest) (w : Site b s) → Handlers t r w → Spares w (serve d t r w)
  unfolding serve allowlist rate_limit
  serve-Spares t r w h =
      let routed = route-Spares t r w r.route refl h in
      let limited : Spares w (rate_limit d t (route d t r.route) r w) =
        elim (Bool-cases (is_health r)) [
          | inl yes_health ↦ rw yes_health routed
          | inr other ↦ rw other (elim (Bool-cases (not t.within_rate)) [
            | inl over ↦ rw over refl
            | inr within ↦ rw within routed
          ])
        ] in
      elim (Bool-cases (is_health r || no_nets d.settings.allow_nets)) [
        | inl free ↦ rw free limited
        | inr listed ↦
            rw listed
              (elim (Bool-cases (
                not (
                  ip_allowed d.addresses d.settings.allow_nets
                    (request_ip d.crypto d.addresses d.settings r)))) [
                      | inl outside ↦ rw outside refl
                      | inr inside ↦ rw inside limited
                    ])
      ]

module _ {N : Type 0} (d : Deployment N) {b : Backend} {s : Store} where
  cleanup-refused :
      (t : Readings) (r : HttpRequest) (w : Site b s)
      → valid_csrf d.crypto d.settings r t.seconds ≡ false
      → (cleanup_handler d t r w).1 ≡ w
  unfolding cleanup_handler Pages.cleanup_now
  cleanup-refused t r w h = rw h refl

  delete-refused :
      (t : Readings) (hash : Text) (r : HttpRequest) (w : Site b s)
      → valid_csrf d.crypto d.settings r t.seconds ≡ false
      → (delete_handler d t hash r w).1 ≡ w
  unfolding delete_handler Pages.delete_entry
  delete-refused t hash r w h = rw h refl

  -- A request changes what the backend holds only if it is an upload with a token for writing, or a
  -- form of the pages, the cleanup or the removal of an entry, with its session and its CSRF token.
  pub serve_spares_backend :
      (t : Readings) (r : HttpRequest) (w : Site b s)
      → may_write d t.seconds r.route r ≡ false
      → (serve d t r w).1.world.backend ≡ w.world.backend
  unfolding put_handler get_handler
  serve_spares_backend t r w h =
      let at =
        λ (rt : Route) (q : r.route ≡ rt). subst (λ x. may_write d t.seconds x r ≡ false) q h in
      serve-Spares d (λ v. v.backend) t r w
        (record {
          puts = λ hash q p. absurd (false≢true (sym (at (cache_put hash) q) ∙ p));
          gets = λ hash q p. get-backend t.moments hash w.world;
          cleans = λ q. ap (λ x. x.world.backend) (cleanup-refused t r w (at cleanup_now q));
          deletes = λ hash q.
              ap (λ x. x.world.backend) (delete-refused t hash r w (at (delete_entry hash) q));
        })

  -- A request that is neither an upload with a token for writing nor a download with a token, and no
  -- form with its session and its CSRF token, changes nothing of the world: neither what the backend
  -- holds nor the catalog, the counters, the hub or the cleaner.
  pub serve_spares_world :
      (t : Readings) (r : HttpRequest) (w : Site b s)
      → may_change d t.seconds r.route r ≡ false
      → (serve d t r w).1.world ≡ w.world
  serve_spares_world t r w h =
      let at =
        λ (rt : Route) (q : r.route ≡ rt). subst (λ x. may_change d t.seconds x r ≡ false) q h in
      serve-Spares d (λ v. v) t r w
        (record {
          puts = λ hash q p. absurd (false≢true (sym (at (cache_put hash) q) ∙ p));
          gets = λ hash q p. absurd (false≢true (sym (at (cache_get hash) q) ∙ p));
          cleans = λ q. ap (λ x. x.world) (cleanup-refused t r w (at cleanup_now q));
          deletes =
              λ hash q. ap (λ x. x.world) (delete-refused t hash r w (at (delete_entry hash) q));
        })
