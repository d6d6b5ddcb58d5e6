-- ===== src/Reqlog.antt =====
-- internal/reqlog/reqlog.go: the logger of a request, kept in its context.
use nx_cache.Common.{Option, none, some, List, Text}

-- A logger is what it adds to every line; a context has a logger, or none.
abbrev pub Logger : Type 0
Logger = List (Text × Text)

-- With
unfoldable pub with_log : Option Logger → (log : Option Logger) → Option Logger
with_log ctx none = ctx
with_log ctx (some log) = some log

-- FromOr; `default` is slog.Default().
unfoldable pub from_or : (default : Logger) → Option Logger → (fallback : Option Logger) → Logger
from_or default (some log) fallback = log
from_or default none (some log) = log
from_or default none none = default

-- From
unfoldable pub log_from : (default : Logger) → Option Logger → Logger
unfolding from_or
log_from default ctx = from_or default ctx none
