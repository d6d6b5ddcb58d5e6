-- ===== src/Common/Decimal.antt =====
-- Decimal numbers in texts: `%d` and `strconv.FormatInt` of a natural number, and
-- `strconv.ParseInt(s, 10, 64)`.
use Prim.Native.Nat.{suc, zero, ℕ, ◌-◌, ◌+◌, ◌/◌, ◌*◌, ◌^◌, ◌%◌, ◌<◌}
use mathlib.Core.Path.{◌≡◌, refl}
use mathlib.Core.Logic.{dite, ◌≢◌}
use mathlib.Core.Bool.{Bool, true, false, ◌&&◌}
use mathlib.Core.Option.{Option, none, some}
use mathlib.Core.List.{[], ◌∷◌}
use mathlib.Core.WellFounded.{Acc, WellFounded}
use native.Mathlib.Omega.{arith}
use native.Mathlib.Decide.{dec_lt}
use nx_cache.Common.Tests.{ltb, leb, ◌==◌, if◌then◌else◌}
use nx_cache.Common.Strings.{Text, has_byte}

lower_acc : (bound n : ℕ) → n < bound → Acc ◌<◌ n
lower_acc zero n h = elim h [ ]
lower_acc (suc bound) n h = Acc.intro n (λ m lt. lower_acc bound m (omega arith))

less_wf : WellFounded ◌<◌
unfolding lower_acc
less_wf = record { apply = λ n. lower_acc (suc n) n (omega arith) }

pub tenth_less : {n : ℕ} → 9 < n → n / 10 < n
tenth_less h = omega arith

put_digits : (n : ℕ) → Acc ◌<◌ n → Text → Text
put_digits n (Acc.intro _ below) out =
    dite (dec_lt 9 n)
      (λ h. put_digits (n / 10) (below (n / 10) (tenth_less h)) ((48 + n % 10) ∷ out))
      (λ _. (48 + n) ∷ out)

-- The digits of `n`, the first one not zero unless `n` is.
unfoldable pub format : ℕ → Text
unfolding put_digits less_wf dec_lt
format n = put_digits n (less_wf.apply n) []

abbrev is_digit : ℕ → Bool
is_digit digit = leb 48 digit && leb digit 57

unfoldable pub scan : Text → ℕ → Option ℕ
scan [] n = some n
scan (digit ∷ text) n = if is_digit digit then scan text (n * 10 + (digit - 48)) else none

-- An int64 as it is read: a natural number, or `negative n`, which stands for -(n + 1).
pub data Int64 : Type 0 where
  natural : ℕ → Int64
  negative : ℕ → Int64

-- What a product that passes the range of int64 wraps to.
unfoldable pub to_int64 : ℕ → Int64
to_int64 n = let m = n % 2 ^ 64 in if ltb m (2 ^ 63) then natural m else negative (2 ^ 64 - m - 1)

-- The value behind a sign, held to the range of int64. `none` is the error.
in_range : Bool → Option ℕ → Option Int64
in_range minus none = none
in_range false (some n) = if ltb n (2 ^ 63) then some (natural n) else none
in_range true (some zero) = some (natural 0)
in_range true (some (suc n)) = if ltb n (2 ^ 63) then some (negative n) else none

digits_of : Text → Option ℕ
unfolding scan
digits_of [] = none
digits_of (digit ∷ text) = scan (digit ∷ text) 0

-- strconv.ParseInt(s, 10, 64)
unfoldable pub parse_int : Text → Option Int64
unfolding in_range digits_of
parse_int [] = none
parse_int (digit ∷ text) =
    if digit == b'-'
    then in_range true (digits_of text)
    else if digit == b'+'
    then in_range false (digits_of text)
    else in_range false (digits_of (digit ∷ text))

scan-put_digits : (n : ℕ) (w : Acc ◌<◌ n) (out : Text) → scan (put_digits n w out) 0 ≡ scan out n
unfolding scan put_digits
scan-put_digits n (Acc.intro _ below) out = grind (
  arith,
  λ (h : 9 < n). scan-put_digits (n / 10) (below (n / 10) (tenth_less h)) ((48 + n % 10) ∷ out),
)

-- Reading the digits of a number gives the number, whatever its size.
pub scan-format : (n : ℕ) → scan (format n) 0 ≡ some n
unfolding format scan
scan-format n = scan-put_digits n (less_wf.apply n) []

has_byte-put_digits :
    (b n : ℕ) (w : Acc ◌<◌ n) (out : Text)
    → (b < 48)
    → has_byte b out ≡ false
    → has_byte b (put_digits n w out) ≡ false
unfolding has_byte put_digits
has_byte-put_digits b n (Acc.intro _ below) out low h = grind (
  arith,
  λ (p : 9 < n).
      has_byte-put_digits b (n / 10) (below (n / 10) (tenth_less p)) ((48 + n % 10) ∷ out) low,
)

-- The digits hold no byte below `0`: no sign, no dot, no quote, no comma, no space.
pub has_byte-format : (b n : ℕ) → b < 48 → has_byte b (format n) ≡ false
unfolding format has_byte
has_byte-format b n low = has_byte-put_digits b n (less_wf.apply n) [] low refl

put_digits-ne-nil : (n : ℕ) (w : Acc ◌<◌ n) (out : Text) → put_digits n w out ≢ []
unfolding put_digits
put_digits-ne-nil n (Acc.intro _ below) out = grind (
  arith,
  λ (p : 9 < n). put_digits-ne-nil (n / 10) (below (n / 10) (tenth_less p)) ((48 + n % 10) ∷ out),
)

parse_int_digits :
    (text : Text) (n : ℕ)
    → text ≢ []
    → scan text 0 ≡ some n
    → has_byte b'-' text ≡ false
    → has_byte b'+' text ≡ false
    → n < 2 ^ 63
    → parse_int text ≡ some (natural n)
unfolding parse_int has_byte
parse_int_digits [] n ne h minus plus small = absurd (ne refl)
parse_int_digits (digit ∷ text) n ne h minus plus small = ground arith

-- Reading back what was printed, for every value of an int64 that is not negative.
pub parse_int-format : (n : ℕ) → n < 2 ^ 63 → parse_int (format n) ≡ some (natural n)
parse_int-format n small =
    parse_int_digits (format n) n (unfold format in put_digits-ne-nil n (less_wf.apply n) [])
      (scan-format n) (has_byte-format b'-' n (omega arith)) (has_byte-format b'+' n (omega arith))
      small
