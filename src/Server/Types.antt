-- ===== src/Server/Types.antt =====
-- internal/httpserver/server.go: the server, its requests and its answers.
use nx_cache.Common.{ℕ, Bool, Option, List, [], Text, String, codes, Int64, Time}
use nx_cache.Storage.Types.{Backend, Body}
use nx_cache.Store.Types.{Entry, Stats}
use nx_cache.Store.Interface.{Store}
use nx_cache.NxArtifact.Kind.{TaskHeaders}
use nx_cache.Auth.{Sessions}
use nx_cache.LoginGate.{Gate}
use nx_cache.Metrics.{MetricsSnapshot}
use nx_cache.ClientIp.{Request}
use nx_cache.CacheApi.{Moments, World}

-- The registered routes, and the path parameter of those that have one.
pub data Route : Type 0 where
  health static_file login_get login_post dashboard entries stats cleanup_now logout unknown : Route
  cache_put cache_get cache_head delete_entry : Text → Route

-- What the handlers read of a request. A header or a value that is missing is empty; `form` is
-- whether ParseForm succeeds, and `page` what Atoi makes of the query's page, 0 if it fails.
pub record HttpRequest : Type 0 where
  pub route : Route
  pub path : Text
  pub from : Request
  pub authorization : Text
  pub cookie : Option Text
  pub csrf_header : Text
  pub csrf_form : Text
  pub form : Bool
  pub username : Text
  pub password : Text
  pub query : Text
  pub page : Int64
  pub message : Text
  pub content_length : Text
  pub headers : TaskHeaders
  pub body : Body

-- web.LoginData
pub record LoginData : Type 0 where
  pub message : Text
  pub username : Text

abbrev pub login_error : String → LoginData
login_error message = record { message = codes message; username = [] }

-- The arguments of web.NewDashboard that a request and the store decide.
pub record DashboardData : Type 0 where
  pub username : Text
  pub csrf_token : Text
  pub query : Text
  pub message : Text
  pub page : ℕ
  pub stats : Stats
  pub entries : List Entry
  pub total : ℕ
  pub latency : Option MetricsSnapshot

pub data Page : Type 0 where
  plain : Text → Page
  login_page : LoginData → Page
  dashboard_page entries_section stats_section : DashboardData → Page
  no_page : Page

-- A status, where the client is sent, what becomes of its cookie, and the body.
pub data Cookie : Type 0 where
  kept cleared : Cookie
  set_to : Text → Cookie

pub record Answer : Type 0 where
  pub status : ℕ
  pub location : Text
  pub cookie : Cookie
  pub page : Page

-- http.Error
abbrev pub problem : ℕ → String → Answer
problem status message = record {
  status = status;
  location = [];
  cookie = kept;
  page = plain (codes message);
}

-- http.Redirect with StatusSeeOther
abbrev pub see_other : Text → Cookie → Answer
see_other to cookie = record { status = 303; location = to; cookie = cookie; page = no_page }

abbrev pub render : ℕ → Page → Answer
render status page = record { status = status; location = []; cookie = kept; page = page }

-- The part of the configuration that the server reads, with the sessions.
pub record ServerConfig (N : Type 0) : Type 0 where
  pub access_token : Text
  pub read_token : Text
  pub ui_username : Text
  pub ui_password : Text
  pub allow_nets : List N
  pub trusted : List N
  pub trust_forwarded : Bool
  pub sessions : Sessions

-- What a request may change: the world of the cache API, and the gate of failed logins.
pub record Site (b : Backend) (s : Store) : Type 0 where
  pub world : World b s
  pub logins : Gate

-- A handler's answer, which is none where it returns without one, and what it leaves.
abbrev pub Handler : Backend → Store → Type 0
Handler b s = HttpRequest → Site b s → Option Answer × Site b s

-- What a request meets: the clock's readings of the cache API, of the login gate and the reports, of
-- a run of the cleanup and of a notification; the time in seconds; what WaitOrModified answers; and
-- what the rate limiter says of the address.
pub record Readings : Type 0 where
  pub moments : Moments
  pub clock : Time
  pub later : Time
  pub notified : Time
  pub seconds : ℕ
  pub waited : Option Bool
  pub within_rate : Bool
