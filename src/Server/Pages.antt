-- ===== src/Server/Pages.antt =====
-- internal/httpserver/server.go: the pages behind a session, and what their forms do.
use nx_cache.Common.{
  ℕ, ◌-◌, ◌*◌, ◌/◌, ◌%◌, Bool, true, false, not, ◌||◌, ◌==◌, ◌+◌, Option, none, some, List, [], ◌∷◌,
  ◌++◌, ltb, leb, if◌then◌else◌, length, take, Text, codes, format, Int64, natural, negative,
  trim_space, to_int64, Time,
}
use nx_cache.Storage.Types.{Fault, Result, Backend, ok, err}
use nx_cache.Store.Types.{Entry, Stats}
use nx_cache.Store.Interface.{Store}
use nx_cache.Auth.{Crypto, csrf_token}
use nx_cache.Cleanup.{run, Cleaner}
use nx_cache.Metrics.{snapshot}
use nx_cache.LongPoll.{notify}
use nx_cache.CacheApi.{is_alphanumeric, valid_hash, World}
use nx_cache.Server.Types.{
  HttpRequest, DashboardData, dashboard_page, Page, no_page, Answer, problem, see_other, render,
  kept, ServerConfig,
}
use nx_cache.Server.Login.{user_of, valid_csrf}

abbrev pub page_size : ℕ
page_size = 25

-- if page < 1 { page = 1 }
abbrev pub page_number : Int64 → ℕ
page_number (natural n) = if ltb n 1 then 1 else n
page_number (negative n) = 1

-- web.ShortHash: the first 12 bytes and an ellipsis, if there are more than 16.
unfoldable pub short_hash : Text → Text
short_hash hash = if leb (length hash) 16 then hash else take 12 hash ++ 226 ∷ 128 ∷ 166 ∷ []

abbrev pub hex_digit : ℕ → ℕ
hex_digit n = if ltb n 10 then 48 + n else 55 + n

-- A byte that url.QueryEscape leaves as it is.
abbrev pub is_unreserved : ℕ → Bool
is_unreserved c = is_alphanumeric c || c == b'-' || c == b'_' || c == b'.' || c == b'~'

-- url.QueryEscape, as in url.Values.Encode
unfoldable pub query_escape : Text → Text
query_escape [] = []
query_escape (c ∷ s) =
    let rest = query_escape s in
    if is_unreserved c
    then c ∷ rest
    else if c == b' '
    then b'+' ∷ rest
    else b'%' ∷ hex_digit (c / 16) ∷ hex_digit (c % 16) ∷ rest

-- The dashboard with a message.
unfoldable pub dashboard_with : Text → Text
unfolding query_escape
dashboard_with message = codes "/?msg=" ++ query_escape message

abbrev pub user_or_blank : Option Text → Text
user_or_blank none = []
user_or_blank (some user) = user

unfoldable pub show : (DashboardData → Page) → Result DashboardData → Answer
show page (err e) = problem 500 "Internal server error"
show page (ok d) = render 200 (page d)

module _ {b : Backend} {s : Store} where
  unfoldable pub after_purge :
      Text → Option Fault × b.State → World b s → Option Fault × s.State → Answer × World b s
  unfolding short_hash dashboard_with
  after_purge hash (e, bs) w (some f, ss) =
      (problem 500 "purge failed", record w { backend = bs; store = ss })
  after_purge hash (e, bs) w (none, ss) = (
    see_other (dashboard_with (codes "artifact " ++ short_hash hash ++ codes " purged")) kept,
    record w { backend = bs; store = ss },
  )

  unfoldable pub purge : Text → World b s → Option Fault × b.State → Answer × World b s
  unfolding after_purge
  purge hash w (some e, bs) = (problem 500 "purge failed", record w { backend = bs })
  purge hash w (none, bs) = after_purge hash (none, bs) w (s.delete (hash ∷ []) w.store)

module _ {N : Type 0} (crypto : Crypto) (cfg : ServerConfig N) {b : Backend} {s : Store} where
  abbrev pub with_stats :
      HttpRequest → ℕ → World b s → List Entry × ℕ → Result Stats → Result DashboardData
  with_stats r now w (entries, total) (err e) = err e
  with_stats r now w (entries, total) (ok stats) =
      let user = user_or_blank (user_of crypto cfg r now) in
      ok (record {
        username = user;
        csrf_token = csrf_token crypto cfg.sessions user;
        query = trim_space r.query;
        message = r.message;
        page = page_number r.page;
        stats = stats;
        entries = entries;
        total = total;
        latency = elim w.metrics [ none ↦ none | some c ↦ some (snapshot c) ];
      })

  unfoldable pub with_list :
      HttpRequest → Time → ℕ → World b s → Result (List Entry × ℕ) → Result DashboardData
  with_list r t now w (err e) = err e
  with_list r t now w (ok found) = with_stats r now w found (s.stats t w.store)

  unfoldable pub dashboard_data : HttpRequest → Time → ℕ → World b s → Result DashboardData
  unfolding with_list to_int64
  dashboard_data r t now w = with_list r t now w (
      s.list (trim_space r.query) page_size (to_int64 ((page_number r.page - 1) * page_size))
        w.store)

  unfoldable pub dashboard : HttpRequest → Time → ℕ → World b s → Answer
  unfolding show dashboard_data
  dashboard r t now w = show dashboard_page (dashboard_data r t now w)

  -- `entries` and `stats`: `waited` is what WaitOrModified answers, none for an error; then the
  -- request has no answer.
  unfoldable pub section :
      (DashboardData → Page) → Option Bool → HttpRequest → Time → ℕ → World b s → Option Answer
  unfolding show dashboard_data
  section page none r t now w = none
  section page (some false) r t now w = some (render 304 no_page)
  section page (some true) r t now w = some (show page (dashboard_data r t now w))

  unfoldable pub announce : Time → World b s → World b s
  announce t w = record w { hub = elim w.hub [ none ↦ none | some h ↦ some (notify t h) ] }

  unfoldable pub after_run :
      Time → World b s → Result ℕ × (b.State × s.State) × Cleaner → Answer × World b s
  unfolding announce dashboard_with
  after_run t w (err e, (bs, ss), c) =
      (problem 500 "cleanup failed", record w { backend = bs; store = ss; cleaner = c })
  after_run t w (ok n, (bs, ss), c) = (
    see_other (dashboard_with (format n ++ codes " expired artifacts removed")) kept,
    announce t (record w { backend = bs; store = ss; cleaner = c }),
  )

  -- cleanupNow: `t` and `later` are the readings of the run, and `notified` that of the hub.
  unfoldable pub cleanup_now : HttpRequest → Time → Time → Time → ℕ → World b s → Answer × World b s
  unfolding after_run valid_csrf
  cleanup_now r t later notified now w =
      if not (valid_csrf crypto cfg r now)
      then (problem 403 "invalid CSRF token", w)
      else after_run notified w (run b s t later w.cleaner (w.backend, w.store))

  unfoldable pub delete_entry : Text → HttpRequest → ℕ → World b s → Answer × World b s
  unfolding purge valid_csrf
  delete_entry hash r now w =
      if not (valid_csrf crypto cfg r now)
      then (problem 403 "invalid CSRF token", w)
      else if not (valid_hash hash)
      then (problem 400 "invalid hash", w)
      else purge hash w (b.delete w.backend (hash ∷ []))
