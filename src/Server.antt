-- ===== src/Server.antt =====
-- internal/httpserver/server.go and the middlewares of internal/httpserver/access.go: the handlers of
-- the pages, the checks before the handlers, and the routes. What chi makes of a method and a path is
-- a `Route`.
pub mod Types
pub mod Login
pub mod Pages
pub mod Routes
pub mod Guarded
pub mod Purged
pub mod Sessions
pub mod RateLimit
pub mod Capped
pub mod Burst
pub mod Limited
pub mod Outer
pub mod Logged
