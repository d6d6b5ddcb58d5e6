-- ===== src/Server/Sessions.antt =====
-- internal/httpserver/server.go and internal/auth/auth.go: what a login gives.
use nx_cache.Common.{
  ℕ, ◌≡◌, ◌+◌, ◌<◌, ◌^◌, refl, ap, sym, ◌∙◌, inl, inr, Bool, true, false, not, none, some, arith,
  if◌then◌else◌, Bool-cases, leb, Text, is_empty, has_byte, text_eq, text_eq_iff,
}
use nx_cache.Storage.Types.{Backend}
use nx_cache.Store.Interface.{Store}
use nx_cache.Auth.{Crypto, check_password, cookie_value, session_ttl, username_from_request}
use nx_cache.Auth.Names.{CryptoLaws, username_from_request-cookie_value}
use nx_cache.LoginGate.{allow}
use nx_cache.ClientIp.{Addresses}
use nx_cache.Server.Types.{HttpRequest, Cookie, kept, set_to, cleared, ServerConfig, Site}
use nx_cache.Server.Login.{login_allowed, login_form, login_post, request_ip, user_of}

cookie_or : Text → Cookie → Text
cookie_or d kept = d
cookie_or d cleared = d
cookie_or d (set_to c) = c

module _ {N : Type 0} (crypto : Crypto) (addresses : Addresses N) (cfg : ServerConfig N)
    {b : Backend} {s : Store} where
  -- A login that sets a cookie: who may have it, and what it holds.
  pub record Granted (t now : ℕ) (r : HttpRequest) (w : Site b s) (c : Text) : Type 0 where
    pub let_in : (allow t (request_ip crypto addresses cfg r) w.logins).0 ≡ true
    pub name : r.username ≡ cfg.ui_username
    pub password : check_password crypto r.password cfg.ui_password ≡ true
    pub cookie : c ≡ cookie_value crypto cfg.sessions cfg.ui_username now

  login_form-cookie :
      (t now : ℕ) (ip : Text) (r : HttpRequest) (w : Site b s) (c : Text)
      → (login_form crypto addresses cfg t now ip r w).0.cookie ≡ set_to c
      → (text_eq r.username cfg.ui_username ≡ true)
        × (check_password crypto r.password cfg.ui_password ≡ true)
        × (c ≡ cookie_value crypto cfg.sessions r.username now)
  unfolding login_form cookie_or
  login_form-cookie t now ip r w c = elim (Bool-cases (text_eq r.username cfg.ui_username)) [
    | inr other ↦ rw other (λ h. ground arith)
    | inl same ↦ rw same (elim (Bool-cases (check_password crypto r.password cfg.ui_password)) [
      | inr wrong ↦ rw wrong (λ h. ground arith)
      | inl right ↦ rw right (λ h. (refl, refl, sym (ap (cookie_or c) h)))
    ])
  ]

  login_allowed-Granted :
      (t now : ℕ) (r : HttpRequest) (let_in : Bool) (w w' : Site b s) (c : Text)
      → (allow t (request_ip crypto addresses cfg r) w.logins).0 ≡ let_in
      → (login_allowed crypto addresses cfg t now
          (request_ip crypto addresses cfg r)
          r
          let_in
          w').0.cookie
        ≡ set_to c
      → Granted t now r w c
  unfolding login_allowed
  login_allowed-Granted t now r false w w' c q = λ h. ground arith
  login_allowed-Granted t now r true w w' c q = elim (Bool-cases (not r.form)) [
    | inl broken ↦ rw broken (λ h. ground arith)
    | inr whole ↦ rw whole (λ h.
        let (name, password, cookie) =
          login_form-cookie t now (request_ip crypto addresses cfg r) r w' c h in
        let same = (text_eq_iff r.username cfg.ui_username).0 name in
        record {
          let_in = q;
          name = same;
          password = password;
          cookie = cookie ∙ ap (λ u. cookie_value crypto cfg.sessions u now) same;
        })
  ]

  login_post-Granted :
      (t now : ℕ) (r : HttpRequest) (w : Site b s) (c : Text)
      → (login_post crypto addresses cfg t now r w).0.cookie ≡ set_to c
      → Granted t now r w c
  unfolding login_post
  login_post-Granted t now r w c h =
      login_allowed-Granted t now r (allow t (request_ip crypto addresses cfg r) w.logins).0 w _ c
        refl h

  -- A login that sets a cookie was let in by the gate and had the configured name and password; and a
  -- request with that cookie has a session of that name for 12 hours and not longer, if the sessions
  -- are those of the configured name, which is not empty and holds neither `.` nor `|`, base64 is
  -- read back, and the time is one of an int64.
  pub login_post-user_of :
      (t now later : ℕ) (r r' : HttpRequest) (w : Site b s) (c : Text)
      → CryptoLaws crypto
      → cfg.sessions.username ≡ cfg.ui_username
      → is_empty cfg.sessions.username ≡ false
      → has_byte b'.' cfg.sessions.username ≡ false
      → has_byte b'|' cfg.sessions.username ≡ false
      → now + session_ttl < 2 ^ 63
      → (login_post crypto addresses cfg t now r w).0.cookie ≡ set_to c
      → r'.cookie ≡ some c
      → Granted t now r w c
        × (user_of crypto cfg r' later
            ≡ (if leb later (now + session_ttl) then some cfg.sessions.username else none))
  unfolding user_of
  login_post-user_of t now later r r' w c laws one named dot bar small h q =
      let g = login_post-Granted t now r w c h in
      (
        g,
        ap (λ x. username_from_request crypto cfg.sessions x later)
              (q ∙ ap some (g.cookie ∙ ap (λ u. cookie_value crypto cfg.sessions u now) (sym one)))
            ∙ username_from_request-cookie_value crypto cfg.sessions now later laws named dot bar
                small,
      )
