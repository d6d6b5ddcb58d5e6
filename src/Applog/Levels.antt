-- ===== src/Applog/Levels.antt =====
-- internal/applog/applog.go and internal/config/config.go: the two parsers of LOG_LEVEL.
use nx_cache.Common.{
  String, ◌≡◌, refl, ap, subst, Bool, true, false, [], if◌then◌else◌, Text, codes, text_eq,
  to_lower, trim_space,
}
use nx_cache.Storage.Types.{failure, ok, err}
use nx_cache.Config.{fail, parse_log_level, Outcome, fine, refused}
use nx_cache.Applog.{parse_level, Level, level_debug, level_info, level_warn, level_error}

fine_value : Text → Outcome Text → Text
fine_value d (fine t) = t
fine_value d (refused m) = d

fine_injective : (s t : Text) → fine s ≡ fine t → s ≡ t
unfolding fine_value
fine_injective s t h = ap (fine_value []) h

by_tests :
    (b1 b2 b3 b4 : Bool) (message : String) (level : Text)
    → (if b1
        then fine (codes "info")
        else if b2
        then fine (codes "debug")
        else if b3
        then fine (codes "warn")
        else if b4
        then fine (codes "error")
        else fail message)
      ≡ fine level
    → (l : Level) × ((if b1
          then ok level_info
          else if b2
          then ok level_debug
          else if b3
          then ok level_warn
          else if b4
          then ok level_error
          else err failure)
        ≡ ok l)
      × (parse_level level ≡ ok l)
unfolding parse_level text_eq trim_space to_lower
by_tests true b2 b3 b4 message level h =
    (level_info, refl, subst (λ t. parse_level t ≡ ok level_info) (fine_injective _ _ h) refl)
by_tests false true b3 b4 message level h =
    (level_debug, refl, subst (λ t. parse_level t ≡ ok level_debug) (fine_injective _ _ h) refl)
by_tests false false true b4 message level h =
    (level_warn, refl, subst (λ t. parse_level t ≡ ok level_warn) (fine_injective _ _ h) refl)
by_tests false false false true message level h =
    (level_error, refl, subst (λ t. parse_level t ≡ ok level_error) (fine_injective _ _ h) refl)
by_tests false false false false message level h = absurd (cc)

-- A level that the configuration accepts is one that the logger knows, before it is normalised and
-- after.
pub parse_level-parse_log_level :
    (s level : Text)
    → parse_log_level s ≡ fine level
    → (l : Level) × (parse_level s ≡ ok l) × (parse_level level ≡ ok l)
unfolding parse_level parse_log_level
parse_level-parse_log_level s level h =
    by_tests _ _ _ _ "LOG_LEVEL must be debug, info, warn, or error" level h
