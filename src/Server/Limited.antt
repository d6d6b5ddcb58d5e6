-- ===== src/Server/Limited.antt =====
-- internal/httpserver/server.go with the rate limiter of internal/httpserver/access.go: the limiter's
-- tokens are state beside the site, and a request asks for one unless the allow list refuses it.
use nx_cache.Common.{
  subst, sym, ℕ, ◌+◌, ◌≤◌, ◌≡◌, refl, inl, inr, Bool, true, false, false≢true, not, ◌&&◌, ◌||◌,
  Option, none, some, List, [], ◌∷◌, arith, ◌==◌, if◌then◌else◌, Bool-cases, length, All, Text,
  Time,
}
use nx_cache.Storage.Types.{Backend}
use nx_cache.Store.Interface.{Store}
use nx_cache.ClientIp.{ip_allowed}
use nx_cache.Server.Types.{problem, HttpRequest, Answer, Site, Readings}
use nx_cache.Server.Login.{request_ip}
use nx_cache.Server.Routes.{is_health, no_nets, allowlist, rate_limit, serve, Deployment}
use nx_cache.Server.RateLimit.{Floats, Limiter, within_limit, allow_ip}
use nx_cache.Server.Capped.{FloatLaws, IsCapped}
use nx_cache.Server.Burst.{CountLaws, Counts, allow_times, allow_times-burst}

abbrev pub is_refused : Option Answer → Bool
is_refused none = false
is_refused (some a) = a.status == 429

module _ {N : Type 0} (d : Deployment N) where
  abbrev pub ip_of : HttpRequest → Text
  ip_of r = request_ip d.crypto d.addresses d.settings r

  -- Whether a request gets as far as to the rate limiter, and is not the health check.
  unfoldable pub asks_limiter : HttpRequest → Bool
  asks_limiter r =
      not (is_health r)
      && (no_nets d.settings.allow_nets || ip_allowed d.addresses d.settings.allow_nets (ip_of r))

  -- Requests of one address that get as far as to the limiter.
  abbrev pub AllAsk : Text → List (Readings × HttpRequest) → Type 0
  AllAsk ip rs =
      All (λ (x : Readings × HttpRequest). (asks_limiter x.1 ≡ true) × (ip_of x.1 ≡ ip)) rs

module _ {N : Type 0} (d : Deployment N) {b : Backend} {s : Store} where
  -- A request that the limiter refuses is answered 429 and changes nothing of the site.
  refused_answer :
      (t : Readings) (r : HttpRequest) (w : Site b s)
      → asks_limiter d r ≡ true
      → serve d (record t { within_rate = false }) r w ≡ (some (problem 429 "Too many requests"), w)
  unfolding serve allowlist rate_limit asks_limiter
  refused_answer t r w h = elim (Bool-cases (is_health r)) [
    | inl healthy ↦ absurd (false≢true (rw healthy at h))
    | inr asked ↦ elim (Bool-cases (no_nets d.settings.allow_nets)) [
      | inl all ↦ rw (asked, all) refl
      | inr some_nets ↦ rw (asked, some_nets, rw (asked, some_nets) at h) refl
    ]
  ]

module _ (fl : Floats) {N : Type 0} (d : Deployment N) {b : Backend} {s : Store} where
  -- The limiter reads the clock for itself, at `clock`.
  unfoldable pub serve_limited :
      (clock : Time)
      → Readings
      → HttpRequest
      → Option (Limiter fl) × Site b s
      → Option Answer × Option (Limiter fl) × Site b s
  unfolding asks_limiter within_limit
  serve_limited clock t r (lim, w) =
      let (granted, lim') =
        if asks_limiter d r then within_limit fl clock (ip_of d r) lim else (true, lim) in
      let (a, w') = serve d (record t { within_rate = granted }) r w in (a, lim', w')

  -- How many of the requests at one time are answered otherwise than by 429.
  unfoldable pub served :
      (clock : Time) → List (Readings × HttpRequest) → Option (Limiter fl) × Site b s → ℕ
  unfolding serve_limited
  served clock [] st = 0
  served clock ((t, r) ∷ rs) st =
      let (a, lim, w) = serve_limited clock t r st in
      let more = served clock rs (lim, w) in (if is_refused a then 0 else 1) + more

  -- The answer and the state, by what the limiter says.
  abbrev given :
      Readings
      → HttpRequest
      → Site b s
      → Bool × Limiter fl
      → Option Answer × Option (Limiter fl) × Site b s
  given t r w g = (
    (serve d (record t { within_rate = g.0 }) r w).0,
    some g.1,
    (serve d (record t { within_rate = g.0 }) r w).1,
  )

  serve_limited-given :
      (clock : Time) (t : Readings) (r : HttpRequest) (l : Limiter fl) (w : Site b s) (ip : Text)
      → asks_limiter d r ≡ true
      → ip_of d r ≡ ip
      → serve_limited clock t r (some l, w) ≡ given t r w (allow_ip fl clock ip l)
  unfolding serve_limited within_limit
  serve_limited-given clock t r l w ip h p = rw (h, ← p) refl

  let_in :
      (t : Readings) (r : HttpRequest) (w : Site b s) (granted : Bool)
      → asks_limiter d r ≡ true
      → (if is_refused (serve d (record t { within_rate = granted }) r w).0 then 0 else 1)
        ≤ (if granted then 1 else 0)
  let_in t r w true h = ground arith
  let_in t r w false h = rw (refused_answer d t r w h) (omega arith)

  served-le :
      (clock : Time) (ip : Text) (rs : List (Readings × HttpRequest)) (l : Limiter fl)
      (w : Site b s)
      → AllAsk d ip rs
      → served clock rs (some l, w) ≤ (allow_times fl (length rs) clock ip l).0
  unfolding served allow_times
  served-le clock ip [] l w h = omega arith
  served-le clock ip ((t, r) ∷ rs) l w h =
      let g = allow_ip fl clock ip l in
      let w' = (serve d (record t { within_rate = g.0 }) r w).1 in
      subst
        (λ x.
          (if is_refused x.0 then 0 else 1) + served clock rs (x.1, x.2)
          ≤ (allow_times fl (length ((t, r) ∷ rs)) clock ip l).0)
        (sym (serve_limited-given clock t r l w ip h.0.0 h.0.1))
        (omega (arith, let_in t r w g.0 h.0.0, served-le clock ip rs g.1 w' h.1))

  -- However many requests of an address come at one time, with whatever tokens, forms and paths, no
  -- more are answered otherwise than by 429 than the burst has whole tokens, but for health checks and
  -- what the allow list refuses, if no address has more tokens than the burst and this one was not
  -- seen at a later time, and if the rate is finite and above 0, and the burst and the tokens of the
  -- address are within the range in which floats count exactly.
  pub served-burst :
      (clock : Time) (ip : Text) (rs : List (Readings × HttpRequest)) (l : Limiter fl)
      (w : Site b s)
      → FloatLaws fl
      → (laws : CountLaws fl) → IsCapped fl l
      → AllAsk d ip rs
      → Counts fl laws clock ip l
      → served clock rs (some l, w) ≤ laws.count l.burst
  served-burst clock ip rs l w float_laws laws capped asks h = omega (
    arith,
    served-le clock ip rs l w asks,
    allow_times-burst fl laws (length rs) clock ip l float_laws capped h,
  )
