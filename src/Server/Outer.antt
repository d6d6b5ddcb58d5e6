-- ===== src/Server/Outer.antt =====
-- internal/httpserver/slog.go, and securityHeaders and requestTimeout of internal/httpserver/login.go:
-- the middlewares that stand around the routes. A handler may panic, and may have answered before.
use nx_cache.Common.{
  ℕ, ◌*◌, Bool, ◌||◌, Option, none, some, List, [], ◌∷◌, ◌++◌, leb, ◌==◌, if◌then◌else◌, Text,
  codes, text_eq, has_prefix, second,
}
use nx_cache.Applog.{Level, level_debug, level_info, level_warn, level_error}
use nx_cache.Reqlog.{Logger, with_log, from_or}
use nx_cache.Server.Types.{problem, Answer}

-- What the middlewares read of a request. `is_put` is whether its method is PUT, `tls` whether it came
-- by TLS.
pub record Incoming : Type 0 where
  pub request_id : Text
  pub ip : Text
  pub method : Text
  pub path : Text
  pub tls : Bool

-- A line of the log, with the attributes of its logger.
pub record Line : Type 0 where
  pub level : Level
  pub message : Text
  pub attributes : Logger
  pub status : Option ℕ

-- A panic with http.ErrAbortHandler, or with another value.
pub data Panic : Type 0 where
  abort_handler other_panic : Panic

-- What a handler leaves: the headers that it has set, its answer if it has written one, and whether it
-- has panicked.
pub record Outcome : Type 0 where
  pub headers : List (Text × Text)
  pub answer : Option Answer
  pub panic : Option Panic
  pub lines : List Line

-- The context that a handler is given: its logger, and how long it may take.
pub record Context : Type 0 where
  pub log : Option Logger
  pub timeout : Option ℕ

abbrev pub Inner : Type 0
Inner = Context → Incoming → Outcome

-- requestTimeout
unfoldable pub request_timeout : ℕ → Inner → Inner
unfolding text_eq has_prefix
request_timeout d next ctx r =
    if text_eq r.method (codes "PUT") || has_prefix r.path (codes "/v1/cache/")
    then next ctx r
    else next
        (record ctx {
          timeout = some (if has_prefix r.path (codes "/ui/") then 60 * second else d);
        })
        r

abbrev pub fixed_headers : List (Text × Text)
fixed_headers =
    (codes "X-Content-Type-Options", codes "nosniff")
    ∷ (codes "X-Frame-Options", codes "DENY")
    ∷ (codes "Referrer-Policy", codes "no-referrer")
    ∷ (
      codes "Content-Security-Policy",
      codes
          "default-src 'self'; style-src 'self' 'unsafe-inline'; script-src 'self'; img-src 'self' data:; frame-ancestors 'none'",
    )
    ∷ []

abbrev pub tls_headers : List (Text × Text)
tls_headers = (codes "Strict-Transport-Security", codes "max-age=31536000; includeSubDomains") ∷ []

-- securityHeaders; the headers of the handler behind it come after.
unfoldable pub security_headers : Inner → Inner
security_headers next ctx r =
    let o = next ctx r in
    record o { headers = fixed_headers ++ (if r.tls then tls_headers else []) ++ o.headers }

-- http.Error behind what is written already: the first answer stays.
unfoldable pub or_error : Option Answer → Answer
or_error none = problem 500 "Internal Server Error"
or_error (some a) = a

module _ (server_log : Logger) where
  unfoldable pub recovered : Context → Outcome → Option Panic → Outcome
  unfolding from_or or_error
  recovered ctx o none = o
  recovered ctx o (some abort_handler) = o
  recovered ctx o (some other_panic) = record o {
    answer = some (or_error o.answer);
    panic = none;
    lines =
        o.lines
        ++ record {
          level = level_error;
          message = codes "panic";
          attributes = from_or server_log ctx.log (some server_log);
          status = none;
        }
          ∷ [];
  }

  unfoldable pub recoverer : Inner → Inner
  unfolding recovered
  recoverer next ctx r = let o = next ctx r in recovered ctx o o.panic

  -- ww.Status(), with 200 for 0
  abbrev pub status_of : Option Answer → ℕ
  status_of none = 200
  status_of (some a) = if a.status == 0 then 200 else a.status

  unfoldable pub line_level : (path : Text) → (status : ℕ) → Level
  unfolding text_eq has_prefix
  line_level path status =
      if text_eq path (codes "/health") || has_prefix path (codes "/static/")
      then level_debug
      else if leb 500 status
      then level_error
      else if leb 400 status
      then level_warn
      else level_info

  unfoldable pub request_logger : Incoming → Logger
  request_logger r =
      server_log
      ++ (codes "request_id", r.request_id)
        ∷ (codes "ip", r.ip)
        ∷ (codes "method", r.method)
        ∷ (codes "path", r.path)
        ∷ []

  -- A panic goes through `requestLog` without a line.
  unfoldable pub logged : Incoming → Outcome → Option Panic → Outcome
  unfolding line_level request_logger
  logged r o (some p) = o
  logged r o none = record o {
    lines =
        o.lines
        ++ record {
          level = line_level r.path (status_of o.answer);
          message = codes "http";
          attributes = request_logger r;
          status = some (status_of o.answer);
        }
          ∷ [];
  }

  unfoldable pub request_log : Inner → Inner
  unfolding logged with_log request_logger
  request_log next ctx r =
      let o = next (record ctx { log = with_log ctx.log (some (request_logger r)) }) r in
      logged r o o.panic

  -- The middlewares of `Handler` around the rest, in their order; those of `Server.Routes` stand
  -- between the last two.
  unfoldable pub outer : (checks : Inner → Inner) → Inner → Inner
  unfolding request_log recoverer security_headers request_timeout
  outer checks next =
      request_log (recoverer (security_headers (checks (request_timeout (30 * second) next))))
