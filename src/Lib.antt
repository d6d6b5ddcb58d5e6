-- ===== src/Lib.antt =====
-- nx-cache: a remote cache for Nx task artifacts. An HTTP API stores artifacts in a backend and their
-- metadata in a catalog; a cleanup removes what has outlived its TTL; a hub tells waiting dashboards
-- of changes.
--
-- The files and the code they are about:
--   Common: the shared helpers: byte texts and the functions of Go's `strings`, maps as association
--     lists, decimal numbers, dates, sorting.
--   Storage: internal/storage/storage.go. Types has the errors, the interface Backend and its laws;
--     Memory is the backend in memory, operation by operation, and Memory/Laws its laws; S3 is the
--     backend of internal/storage/s3.go over S3/Sdk, the client that it calls, whose documented
--     answers are the laws of S3/Laws.
--   Store: internal/store. Types and Kinds are the data and the counts by kind of store.go; Object is
--     the catalog of object.go, with one function per method, Object/Flush its Load and Flush;
--     Interface is the interface Store with its laws, and the catalog as an instance; Notifying is
--     notifying.go, a wrapper of any store. Db is the SQLite catalog of store.go: Db has the methods
--     that write, Db/Queries those that read, Db/Like the search patterns, Db/Migrate Open and migrate;
--     Db/Contract is DB as an instance of the interface, Db/Mirror sets it beside the catalog in memory.
--   Cleanup: internal/cleanup/cleanup.go, over any backend and any store.
--   LongPoll: internal/longpoll/longpoll.go: the hub, and its requests as steps in any order.
--   Metrics: internal/metrics/metrics.go.
--   NxArtifact: internal/nxartifact/inspect.go: headers, kinds and task tokens; Patterns and Terminal
--     are the parsers of a terminal's output up to finalize, Archive is Inspect and Pack.
--   CacheApi: internal/cacheapi/handler.go: Put, Get and Head over any backend and any store.
--   Auth: internal/auth/auth.go: tokens, passwords and the session's cookie.
--   LoginGate: internal/httpserver/login.go: the gate of failed logins.
--   ClientIp: internal/httpserver/clientip.go, with ipAllowed of access.go.
--   Server: internal/httpserver/server.go, with the middlewares of access.go: the routes and their
--     checks, the login, the dashboard, and the forms that clean up and remove; RateLimit is the rate
--     limiter, and Limited the routes behind it.
--     Outer has the middlewares of slog.go and login.go that log, recover, and set headers.
--   Web: internal/web/models.go: how sizes, ages, latencies and kinds are written; Dashboard is
--     NewDashboard.
--   Config: internal/config/config.go: Load with its checks.
--   Applog, Reqlog: internal/applog/applog.go and internal/reqlog/reqlog.go.
--   Main: cmd/server/main.go up to the first request, and cmd/server/healthcheck.go.
--   Reconcile: cmd/server/main.go: the goroutine that brings the catalog in line with the backend.
--   Tests: runs at concrete inputs.
--
-- How the code is modelled:
--   A method is a function of the fields that its mutex guards, which returns its error and the new
--   state. Code that lets go of a mutex is cut there, and what may come in between are steps of a
--   relation (Store/Object/Flush/Durable, LongPoll/Waiting). Each reading of the clock is an
--   argument, a number of nanoseconds since the year 1. Texts are lists of bytes, with the case and
--   the white space of ASCII. Sizes, hits and counters, which are int64 in the code and never
--   negative, are natural numbers without an upper bound; the version of the hub wraps at 2 ^ 64,
--   what is read from a request is held to the range of int64, and the offset and the end of a page
--   wrap there. A map is an association list; where Go leaves the order of a walk open, it is the
--   list's. A sort is by insertion. No loop needs fuel: each is structural, but for the digits of a
--   number, which end since a tenth is less, and but for four that have fuel: a deletion from S3 is
--   given as many batches as it has names, which are enough; a listing as many requests as its
--   context leaves time for; the units of a size six passes; and the wait for the bucket its twelve
--   attempts, which the code counts too.
--   Parameters stand for what is not in the repository: the JSON form of a snapshot, the parser of
--   HTTP dates, the case and the white space of Unicode where entries are searched in memory, the
--   hash and base64 functions, the parsers of addresses, durations and floats, the arithmetic of
--   floats, the engine of regular expressions, and the readers and writers of gzip and tar. What
--   Inspect reads from an archive is a parameter of the cache API.
--   An SQL statement is the change of the tables, or the read of them, that its text says. SQLite's
--   answers are data of the state, so that any statement may fail; one that fails changes nothing.
--
-- Not modelled: the page templates, which are generated; the writing of the log; the listening and the
-- shutdown of the server; the command that takes screenshots.
pub mod Common
pub mod Applog
pub mod Main
pub mod Reqlog
pub mod Storage
pub mod Server
pub mod Reconcile
pub mod Web
pub mod Store
pub mod Cleanup
pub mod LongPoll
pub mod Metrics
pub mod NxArtifact
pub mod CacheApi
pub mod ClientIp
pub mod Auth
pub mod Config
pub mod LoginGate
mod Tests
