-- ===== src/Server/Logged.antt =====
-- internal/httpserver/slog.go: every request is logged once and answered, one that panics too.
use nx_cache.Common.{
  ap, sym, append-nil, ◌*◌, ◌≡◌, refl, sym, subst, ◌≢◌, Option, none, some, List, [], ◌∷◌, ◌++◌,
  if◌then◌else◌, codes, second,
}
use nx_cache.Applog.{level_error}
use nx_cache.Reqlog.{Logger, with_log, from_or}
use nx_cache.Server.Types.{Answer}
use nx_cache.Server.Outer.{
  Inner, request_timeout, fixed_headers, tls_headers, security_headers, or_error, recovered,
  recoverer, status_of, line_level, request_logger, logged, request_log, outer, Incoming, Line,
  Panic, Outcome, Context, abort_handler, other_panic,
}

-- What the client is answered, by how the handlers ended: none stands for 200 without a body.
abbrev pub answer_of : Option Panic → Option Answer → Option Answer
answer_of none a = a
answer_of (some p) a = some (or_error a)

-- The lines of a panic.
abbrev pub panic_lines : Logger → Option Panic → List Line
panic_lines log none = []
panic_lines log (some p) =
    record { level = level_error; message = codes "panic"; attributes = log; status = none } ∷ []

module _ (server_log : Logger) where
  -- The line of a request with an answer.
  abbrev pub http_line : Incoming → Option Answer → Line
  http_line r a = record {
    level = line_level server_log r.path (status_of server_log a);
    message = codes "http";
    attributes = request_logger server_log r;
    status = some (status_of server_log a);
  }

  -- What the middlewares make of what the handlers left.
  pub record Ended (r : Incoming) (p : Option Panic) (i o : Outcome) : Type 0 where
    pub calm : o.panic ≡ none
    pub headers : o.headers ≡ fixed_headers ++ (if r.tls then tls_headers else []) ++ i.headers
    pub answer : o.answer ≡ answer_of p i.answer
    pub lines :
        o.lines
        ≡ i.lines ++ panic_lines (request_logger server_log r) p ++ http_line r o.answer ∷ []

  -- The answers of the two innermost by what was left.
  recovered-Ended :
      (ctx : Context) (r : Incoming) (i : Outcome) (p : Option Panic)
      → i.panic ≡ p
      → p ≢ some abort_handler
      → ctx.log ≡ some (request_logger server_log r)
      → let s = record i {
        headers = fixed_headers ++ (if r.tls then tls_headers else []) ++ i.headers;
      } in
        let c = recovered server_log ctx s p in Ended r p i (logged server_log r c c.panic)
  unfolding recovered logged from_or
  recovered-Ended ctx r i none e calm l =
      let s = record i {
        headers = fixed_headers ++ (if r.tls then tls_headers else []) ++ i.headers;
      } in
      subst (λ q. Ended r none i (logged server_log r s q)) (sym e)
        (record {
          calm = e;
          headers = refl;
          answer = refl;
          lines = ap (λ ls. ls ++ http_line r i.answer ∷ []) (sym (append-nil i.lines));
        })
  recovered-Ended ctx r i (some abort_handler) e calm l = absurd (calm refl)
  recovered-Ended ctx r i (some other_panic) e calm l = record {
    calm = refl;
    headers = refl;
    answer = refl;
    lines =
        ap
          (λ log.
            i.lines
            ++ panic_lines (from_or server_log log (some server_log)) (some other_panic)
            ++ http_line r (some (or_error i.answer)) ∷ [])
          l;
  }

  module _ (checks : Inner → Inner) (next : Inner) (ctx : Context) (r : Incoming) where
    -- What the checks and the routes leave, with the logger of the request in their context.
    abbrev pub inner_outcome : Outcome
    inner_outcome =
        checks (request_timeout (30 * second) next)
          (record ctx { log = some (request_logger server_log r) }) r

    -- Whatever the handlers do, but for a panic with ErrAbortHandler, the client has an answer with the
    -- security headers, 500 if a handler panicked before it answered; the panic is logged, and behind
    -- it the request, once, with the status of the answer.
    pub outer-Ended :
        inner_outcome.panic ≢ some abort_handler
        → Ended r inner_outcome.panic inner_outcome (outer server_log checks next ctx r)
    unfolding outer request_log recoverer security_headers with_log
    outer-Ended calm =
        recovered-Ended (record ctx { log = some (request_logger server_log r) }) r inner_outcome
          inner_outcome.panic refl calm refl
