-- ===== src/Server/Login.antt =====
-- internal/httpserver/server.go: sessions, the login and the checks of tokens.
use nx_cache.Common.{
  ℕ, Bool, true, false, not, ◌||◌, Option, none, some, [], if◌then◌else◌, Text, codes, text_eq,
  is_empty, has_prefix, Time,
}
use nx_cache.Storage.Types.{Backend}
use nx_cache.Store.Interface.{Store}
use nx_cache.Auth.{
  Crypto, Verdict, allowed, denied, bearer_ok, check_password, cookie_value, username_from_request,
  valid_csrf_token,
}
use nx_cache.LoginGate.{allow, failure, success}
use nx_cache.ClientIp.{Addresses, client_ip}
use nx_cache.Server.Types.{
  HttpRequest, login_error, login_page, Answer, problem, see_other, render, kept, cleared, set_to,
  plain, ServerConfig, Site, Handler,
}

module _ {N : Type 0} (crypto : Crypto) (cfg : ServerConfig N) where
  unfoldable pub user_of : HttpRequest → ℕ → Option Text
  unfolding username_from_request
  user_of r now = username_from_request crypto cfg.sessions r.cookie now

  abbrev pub token_of : HttpRequest → Text
  token_of r = if is_empty r.csrf_header then r.csrf_form else r.csrf_header

  unfoldable pub valid_csrf : HttpRequest → ℕ → Bool
  unfolding user_of valid_csrf_token
  valid_csrf r now = elim (user_of r now) [
    | none ↦ false
    | some user ↦ valid_csrf_token crypto cfg.sessions user (token_of r)
  ]

  unfoldable pub login_get : ℕ → HttpRequest → Answer
  unfolding user_of
  login_get now r = elim (user_of r now) [
    | some user ↦ see_other (codes "/") kept
    | none ↦ render 200 (login_page (record { message = []; username = [] }))
  ]

  unfoldable pub logout : ℕ → HttpRequest → Answer
  unfolding valid_csrf
  logout now r =
      if not (valid_csrf r now)
      then problem 403 "invalid CSRF token"
      else see_other (codes "/login") cleared

module _ {b : Backend} {s : Store} where
  unfoldable pub after_verdict : Verdict → Handler b s → Handler b s
  after_verdict allowed next r w = next r w
  after_verdict (denied status msg) next r w =
      (some (record { status = status; location = []; cookie = kept; page = plain msg }), w)

  -- The header HX-Redirect is the answer's location.
  unfoldable pub after_user : Option Text → Handler b s → Handler b s
  after_user (some user) next r w = next r w
  after_user none next r w = (
    some (
        if has_prefix r.path (codes "/ui/")
        then record (problem 401 "authentication required") { location = codes "/login" }
        else see_other (codes "/login") kept),
    w,
  )

module _ {N : Type 0} (crypto : Crypto) (cfg : ServerConfig N) {b : Backend} {s : Store} where
  -- The middleware `bearer`; `write` is whether the method is PUT or DELETE.
  unfoldable pub bearer : Bool → Handler b s → Handler b s
  unfolding bearer_ok after_verdict
  bearer write next r w =
      after_verdict (bearer_ok crypto r.authorization cfg.access_token cfg.read_token write) next r
        w

  -- The middleware `requireSession`.
  unfoldable pub require_session : ℕ → Handler b s → Handler b s
  unfolding user_of after_user
  require_session now next r w = after_user (user_of crypto cfg r now) next r w

module _ {N : Type 0} (crypto : Crypto) (addresses : Addresses N) (cfg : ServerConfig N) where
  -- s.clientIP(r)
  unfoldable pub request_ip : HttpRequest → Text
  unfolding client_ip
  request_ip r = client_ip addresses r.from cfg.trust_forwarded cfg.trusted

  module _ {b : Backend} {s : Store} where
    -- The credentials of a form, behind the gate.
    unfoldable pub login_form : Time → ℕ → Text → HttpRequest → Site b s → Answer × Site b s
    unfolding check_password cookie_value
    login_form t now ip r w =
        if not (text_eq r.username cfg.ui_username)
          || not (check_password crypto r.password cfg.ui_password)
        then (
          render 401 (
              login_page
                (record { message = codes "Invalid username or password"; username = r.username })),
          record w { logins = failure t ip w.logins },
        )
        else (
          see_other (codes "/") (set_to (cookie_value crypto cfg.sessions r.username now)),
          record w { logins = success ip w.logins },
        )

    unfoldable pub login_allowed :
        Time → ℕ → Text → HttpRequest → Bool → Site b s → Answer × Site b s
    unfolding login_form
    login_allowed t now ip r false w =
        (render 429 (login_page (login_error "Too many attempts, try again later")), w)
    login_allowed t now ip r true w =
        if not r.form
        then (render 400 (login_page (login_error "Invalid form")), w)
        else login_form t now ip r w

    -- `t` is the gate's reading of the clock, and `now` the seconds of the cookie's.
    unfoldable pub login_post : Time → ℕ → HttpRequest → Site b s → Answer × Site b s
    unfolding login_allowed request_ip
    login_post t now r w =
        let ip = request_ip r in
        let (open_gate, gate) = allow t ip w.logins in
        login_allowed t now ip r open_gate (record w { logins = gate })
