-- ===== src/Web.antt =====
-- internal/web/models.go: how sizes, times and kinds are written. `%.1f` and `%.2f` of a quotient are
-- parameters. The whole hours, minutes and seconds of a duration are taken by division, where the
-- code cuts off a float64, which may round up in the last nanoseconds of an hour.
pub mod Units
pub mod Dashboard
use nx_cache.Common.{
  zero, suc, ℕ, ◌-◌, ◌+◌, ◌*◌, ◌/◌, ◌%◌, Bool, true, false, ◌||◌, Option, none, some, List, [], ◌∷◌,
  ◌++◌, ltb, leb, ◌==◌, if◌then◌else◌, get_or, Text, codes, text_eq, is_empty, format, Int64,
  natural, negative, second,
}
use nx_cache.Metrics.{OperationStats}
use nx_cache.Store.Types.{Stats}
use nx_cache.NxArtifact.Kind.{one_of}

-- A quotient of two numbers with one digit and with two digits behind the point.
pub record Printer : Type 0 where
  pub one_digit : ℕ → ℕ → Text
  pub two_digits : ℕ → ℕ → Text
  -- `%.1f%%` of a hundred times the quotient.
  pub percent : ℕ → ℕ → Text

-- The loop of FormatBytes, with the most passes it may take: the divisor and the exponent.
unfoldable pub units : ℕ → ℕ → ℕ → ℕ → ℕ × ℕ
units zero val div exp = (div, exp)
units (suc fuel) val div exp =
    let more = units fuel (val / 1024) (div * 1024) (exp + 1) in
    if leb 1024 val then more else (div, exp)

-- "KMGTPE"
abbrev pub unit_letters : Text
unit_letters = codes "KMGTPE"

-- FormatBytes of a size that is not negative: six passes are enough for an int64.
unfoldable pub format_bytes : Printer → ℕ → Text
unfolding units
format_bytes p n =
    let (div, exp) = units 6 (n / 1024) 1024 0 in
    if ltb n 1024
    then format n ++ codes " B"
    else p.one_digit n div ++ codes " " ++ get_or unit_letters exp 0 ∷ codes "iB"

abbrev pub minute : ℕ
minute = 60_000_000_000

abbrev pub hour : ℕ
hour = 3_600_000_000_000

abbrev pub not_negative : Int64 → ℕ
not_negative (natural d) = d
not_negative (negative n) = 0

unfoldable pub age_hours : ℕ → ℕ → Text
age_hours h m =
    if m == 0 then format h ++ codes "h" else format h ++ codes "h " ++ format m ++ codes "m"

unfoldable pub age_days : ℕ → ℕ → Text
age_days days h =
    if h == 0 then format days ++ codes "d" else format days ++ codes "d " ++ format h ++ codes "h"

-- FormatAge of a duration that is not negative.
unfoldable pub age_text : ℕ → Text
unfolding age_hours age_days
age_text d =
    if ltb d minute
    then format (d / second) ++ codes "s"
    else if ltb d hour
    then format (d / minute) ++ codes "m"
    else if ltb d (24 * hour)
    then age_hours (d / hour) (d / minute % 60)
    else age_days (d / hour / 24) (d / hour % 24)

unfoldable pub format_age : Int64 → Text
unfolding age_text
format_age d = age_text (not_negative d)

abbrev pub millisecond : ℕ
millisecond = 1_000_000

-- "—" in UTF-8
abbrev pub long_dash : Text
long_dash = 226 ∷ 128 ∷ 148 ∷ []

unfoldable pub latency_text : Printer → ℕ → Text
latency_text p d =
    if d == 0
    then long_dash
    else if ltb d millisecond
    then codes "<1 ms"
    else if ltb d second
    then format (d / millisecond) ++ codes " ms"
    else p.two_digits d second ++ codes " s"

unfoldable pub format_latency : Printer → Int64 → Text
unfolding latency_text
format_latency p d = latency_text p (not_negative d)

-- FormatRate over HitRate: without a request the rate is 0.
unfoldable pub format_rate : Printer → Stats → Text
format_rate p s =
    let total = s.hits + s.misses in if total == 0 then codes "0.0%" else p.percent s.hits total

unfoldable pub format_latency_pair : Printer → OperationStats → Text
unfolding latency_text
format_latency_pair p s =
    if s.count == 0
    then codes "No data"
    else latency_text p s.p50 ++ codes " / " ++ latency_text p s.p95

-- " · " in UTF-8
abbrev pub middle_dot : Text
middle_dot = 32 ∷ 194 ∷ 183 ∷ 32 ∷ []

unfoldable pub latency_hint : Printer → (operation : Text) → OperationStats → Text
unfolding format_bytes
latency_hint p operation s =
    if s.count == 0
    then codes "No " ++ operation ++ codes "s since startup"
    else format s.count
      ++ codes " "
      ++ operation
      ++ codes "s"
      ++ middle_dot
      ++ format_bytes p s.bytes
      ++ middle_dot
      ++ format s.samples
      ++ codes " samples"

unfoldable pub kind_badge_class : Text → Text
kind_badge_class kind =
    if text_eq kind (codes "build")
    then codes "border-emerald-500/30 bg-emerald-500/10 text-emerald-700 dark:text-emerald-400"
    else if text_eq kind (codes "test")
    then codes "border-sky-500/30 bg-sky-500/10 text-sky-700 dark:text-sky-400"
    else if text_eq kind (codes "lint")
    then codes "border-amber-500/30 bg-amber-500/10 text-amber-800 dark:text-amber-400"
    else if text_eq kind (codes "e2e")
    then codes "border-violet-500/30 bg-violet-500/10 text-violet-700 dark:text-violet-400"
    else if text_eq kind (codes "typecheck")
    then codes "border-cyan-500/30 bg-cyan-500/10 text-cyan-700 dark:text-cyan-400"
    else if text_eq kind (codes "serve")
    then codes "border-fuchsia-500/30 bg-fuchsia-500/10 text-fuchsia-700 dark:text-fuchsia-400"
    else []

abbrev pub other_colors : List Text
other_colors =
    codes "oklch(68.5% .169 237.323)"
    ∷ codes "oklch(76.9% .188 70.08)"
    ∷ codes "oklch(60.6% .25 292.717)"
    ∷ codes "oklch(65% .2 330)"
    ∷ []

unfoldable pub kind_pie_color : Text → ℕ → Text
kind_pie_color kind index =
    if text_eq kind (codes "build")
    then codes "oklch(69.6% .17 162.48)"
    else if text_eq kind (codes "test")
    then codes "oklch(68.5% .169 237.323)"
    else if text_eq kind (codes "lint")
    then codes "oklch(76.9% .188 70.08)"
    else if text_eq kind (codes "e2e")
    then codes "oklch(60.6% .25 292.717)"
    else if text_eq kind (codes "typecheck")
    then codes "oklch(71.5% .143 215.221)"
    else if text_eq kind (codes "serve")
    then codes "oklch(65% .2 330)"
    else if one_of kind (codes "unknown" ∷ [] ∷ [])
    then codes "oklch(55.6% 0 0)"
    else get_or other_colors (index % 4) []
