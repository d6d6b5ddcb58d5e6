-- ===== src/Applog.antt =====
-- internal/applog/applog.go: the level, the format and the attributes of the log.
pub mod Levels
use nx_cache.Common.{
  ℕ, ◌+◌, ◌-◌, ◌/◌, ap, Bool, not, ◌&&◌, ◌||◌, Option, [], ◌∷◌, ◌++◌, leb, ◌==◌, if◌then◌else◌,
  Text, codes, text_eq, is_empty, to_lower, trim_space, split, format,
}
use nx_cache.Storage.Types.{Result, failure, ok, err}

pub data Level : Type 0 where
  level_debug level_info level_warn level_error : Level

-- slog's number of a level
abbrev pub level_rank : Level → ℕ
level_rank level_debug = 0
level_rank level_info = 4
level_rank level_warn = 8
level_rank level_error = 12

-- ParseLevel
unfoldable pub parse_level : Text → Result Level
unfolding trim_space to_lower
parse_level s =
    let level = to_lower (trim_space s) in
    if is_empty level || text_eq level (codes "info")
    then ok level_info
    else if text_eq level (codes "debug")
    then ok level_debug
    else if text_eq level (codes "warn") || text_eq level (codes "warning")
    then ok level_warn
    else if text_eq level (codes "error")
    then ok level_error
    else err failure

-- What `New` gives the handler.
pub record LogOptions : Type 0 where
  pub level : Level
  pub add_source : Bool
  pub json : Bool

-- New; strings.EqualFold compares as ToLower does.
unfoldable pub new_options : Level → (format : Text) → LogOptions
unfolding trim_space to_lower
new_options level format = record {
  level = level;
  add_source = leb (level_rank level) (level_rank level_debug);
  json = text_eq (to_lower (trim_space format)) (codes "json");
}

-- filepath.Split: what stands up to the last slash, and behind it.
unfoldable pub split_path : Text → Text × Text
split_path [] = ([], [])
split_path (c ∷ s) =
    let (dir, base) = split_path s in
    if c == b'/' || not (is_empty dir) then (c ∷ dir, base) else ([], c ∷ base)

-- strings.TrimSuffix(dir, "/")
unfoldable pub trim_slash : Text → Text
trim_slash [] = []
trim_slash (c ∷ s) = if is_empty s && c == b'/' then [] else c ∷ trim_slash s

-- filepath.Base of a path that does not end with a slash.
abbrev pub path_base : Text → Text
path_base s = let (dir, base) = split_path s in base

-- shortSource, on a system with slashes
unfoldable pub short_source : Text → Text
unfolding split_path trim_slash
short_source file =
    let (dir, base) = split_path file in
    let trimmed = trim_slash dir in
    if is_empty trimmed then base else path_base trimmed ++ b'/' ∷ base

-- A value of an attribute, as `replaceAttr` tells them apart.
pub data Attr : Type 0 where
  source_attr : Text → Attr
  error_attr : Text → Attr
  other_attr : Text → Attr

unfoldable pub replace_attr : Attr → Attr
unfolding short_source
replace_attr (source_attr file) = source_attr (short_source file)
replace_attr (error_attr message) = other_attr message
replace_attr (other_attr value) = other_attr value
