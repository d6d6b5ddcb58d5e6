-- ===== src/Common/Date.antt =====
-- `t.UTC().Format("2006-01-02")` of a time, and the order of such texts.
-- A time is the number of nanoseconds since 1 January of the year 1, UTC, so that 0 is the zero
-- time of the package `time`.
use Prim.Native.Nat.{ℕ, ◌-◌, ◌+◌, ◌/◌, ◌*◌, ◌%◌, min}
use mathlib.Core.Path.{◌≡◌, refl}
use mathlib.Core.Bool.{Bool, true, false, ◌&&◌, ◌||◌, not}
use mathlib.Core.List.{List, [], ◌∷◌, ◌++◌}
use native.Mathlib.Omega.{arith}
use nx_cache.Common.Tests.{ltb, ◌==◌, if◌then◌else◌}
use nx_cache.Common.Strings.{Text, codes}

abbrev pub Time : Type 0
Time = ℕ

abbrev pub second : ℕ
second = 1_000_000_000

-- t.IsZero()
abbrev pub is_zero : Time → Bool
is_zero t = t == 0

abbrev pub nanos_per_day : ℕ
nanos_per_day = 86_400_000_000_000

-- The months before the given one, by their last day in a year of 365 or 366 days.
month_loop : List ℕ → ℕ → ℕ → ℕ × ℕ
month_loop [] month day = (month, day)
month_loop (len ∷ rest) month day =
    let next = month_loop rest (month + 1) (day - len) in if ltb day len then (month, day) else next

month_lengths : Bool → List ℕ
month_lengths leap =
    31 ∷ (if leap then 29 else 28) ∷ 31 ∷ 30 ∷ 31 ∷ 30 ∷ 31 ∷ 31 ∷ 30 ∷ 31 ∷ 30 ∷ []

two_digits : ℕ → Text
two_digits n = (48 + n / 10) ∷ (48 + n % 10) ∷ []

four_digits : ℕ → Text
unfolding two_digits
four_digits n = two_digits (n / 100) ++ two_digits (n % 100)

-- The Gregorian calendar from the count of whole days: cycles of 400, 100, 4 and 1 years, then
-- months. The year has four digits up to 9999.
unfoldable pub day_text : Time → Text
unfolding month_loop month_lengths two_digits four_digits
day_text t =
    let days = t / nanos_per_day in
    let in_400 = days % 146_097 in
    let centuries = min 3 (in_400 / 36_524) in
    let in_100 = in_400 - centuries * 36_524 in
    let in_4 = in_100 % 1461 in
    let years = min 3 (in_4 / 365) in
    let year = days / 146_097 * 400 + centuries * 100 + in_100 / 1461 * 4 + years + 1 in
    let leap = year % 4 == 0 && (not (year % 100 == 0) || year % 400 == 0) in
    let (month, day) = month_loop (month_lengths leap) 1 (in_4 - years * 365) in
    four_digits year ++ b'-' ∷ two_digits month ++ b'-' ∷ two_digits (day + 1)

-- s < t, byte by byte.
unfoldable pub text_lt : Text → Text → Bool
text_lt s [] = false
text_lt [] (d ∷ t) = true
text_lt (c ∷ s) (d ∷ t) = ltb c d || c == d && text_lt s t

pub text_lt_asym : (s t : Text) → text_lt s t ≡ true → text_lt t s ≡ false
unfolding text_lt
text_lt_asym [] [] h = refl
text_lt_asym [] (d ∷ t) h = refl
text_lt_asym (c ∷ s) [] h = cc
text_lt_asym (c ∷ s) (d ∷ t) h = ground (arith, text_lt_asym s t)

pub text_lt_trans : (s t u : Text) → text_lt t s ≡ false → text_lt u t ≡ false → text_lt u s ≡ false
unfolding text_lt
text_lt_trans [] t u h k = refl
text_lt_trans (c ∷ s) [] u h k = cc
text_lt_trans (c ∷ s) (d ∷ t) [] h k = cc
text_lt_trans (c ∷ s) (d ∷ t) (b ∷ u) h k = ground (arith, text_lt_trans s t u)

-- 2026-07-01T12:00:00Z is second 63918504000 of the calendar.
day_text_example : day_text (63_918_504_000 * second) ≡ codes "2026-07-01"
unfolding day_text
day_text_example = refl

leap_day : day_text (63_082_281_600 * second + 86_400 * second * 59) ≡ codes "2000-02-29"
unfolding day_text
leap_day = refl

year_end : day_text (86_400 * second * 364) ≡ codes "0001-12-31"
unfolding day_text
year_end = refl
