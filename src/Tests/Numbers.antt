-- ===== src/Tests/Numbers.antt =====
-- internal/httpserver/access.go: whole numbers and one that is not a number, in the place of float64.
-- Every comparison with the latter is false, and what is computed from it is the same again.
use nx_cache.Common.{
  ℕ, ◌-◌, ◌+◌, ◌*◌, ◌/◌, ◌≤◌, ◌<◌, ◌^◌, refl, arith, Bool, false, Option, none, some, [], ◌∷◌, ◌≡◌,
  ltb, leb, natural, second,
}
use nx_cache.Server.RateLimit.{Floats, Limiter}
use nx_cache.Server.Capped.{FloatLaws}
use nx_cache.Server.Burst.{CountLaws}

abbrev compared : (ℕ → ℕ → Bool) → Option ℕ → Option ℕ → Bool
compared test none b = false
compared test (some a) none = false
compared test (some a) (some b) = test a b

abbrev combined : (ℕ → ℕ → ℕ) → Option ℕ → Option ℕ → Option ℕ
combined f none b = none
combined f (some a) none = none
combined f (some a) (some b) = some (f a b)

abbrev pub numbers : Floats
numbers = record {
  F = Option ℕ;
  zero_float = some 0;
  one = some 1;
  less = compared ltb;
  at_most = compared leb;
  plus = combined (λ a b. a + b);
  minus = combined (λ a b. a - b);
  times = combined (λ a b. a * b);
  of_int = λ n. some 3;
  truncate = λ x. elim x [ none ↦ natural 0 | some n ↦ natural n ];
  seconds = λ n. some (n / second);
}

number_less_irrefl : (x : Option ℕ) → compared ltb x x ≡ false
number_less_irrefl none = refl
number_less_irrefl (some n) = ground arith

number_less-minus :
    (x y : Option ℕ)
    → compared ltb x y ≡ false
    → compared ltb x (combined (λ a b. a - b) y (some 1)) ≡ false
number_less-minus none y h = refl
number_less-minus (some a) none h = refl
number_less-minus (some a) (some b) h = ground arith

pub number_laws : FloatLaws numbers
number_laws = record { less_irrefl = number_less_irrefl; less-minus = number_less-minus }

abbrev pub IsWhole : Option ℕ → Type 0
IsWhole none = ⊥
IsWhole (some n) = n ≤ 2 ^ 53

abbrev pub IsPositive : Option ℕ → Type 0
IsPositive none = ⊥
IsPositive (some n) = 0 < n

abbrev whole : Option ℕ → ℕ
whole none = 0
whole (some n) = n

whole_minus :
    (x : Option ℕ)
    → IsWhole x
    → compared ltb x (some 1) ≡ false
    → IsWhole (combined (λ a b. a - b) x (some 1))
whole_minus none h p = h
whole_minus (some n) h p = omega arith

whole_refilled :
    (burst rate x : Option ℕ) (elapsed : ℕ)
    → IsWhole burst
    → IsPositive rate
    → IsWhole x
    → compared ltb burst
        (combined (λ a b. a + b) x (combined (λ a b. a * b) (some (elapsed / second)) rate))
      ≡ false
    → IsWhole (combined (λ a b. a + b) x (combined (λ a b. a * b) (some (elapsed / second)) rate))
whole_refilled none rate x elapsed h r k p = absurd h
whole_refilled (some b) none x elapsed h r k p = absurd r
whole_refilled (some b) (some a) none elapsed h r k p = k
whole_refilled (some b) (some a) (some n) elapsed h r k p = ground arith

whole_taken :
    (x : Option ℕ)
    → IsWhole x
    → compared ltb x (some 1) ≡ false
    → whole (combined (λ a b. a - b) x (some 1)) + 1 ≤ whole x
whole_taken none h p = absurd h
whole_taken (some n) h p = ground arith

whole_mono : (x y : Option ℕ) → IsWhole x → IsWhole y → compared ltb x y ≡ false → whole y ≤ whole x
whole_mono none y h k p = absurd h
whole_mono (some a) none h k p = absurd k
whole_mono (some a) (some b) h k p = ground arith

unfoldable pub number_counts : CountLaws numbers
unfolding whole_minus whole_refilled whole_taken whole_mono
number_counts = record {
  IsCount = IsWhole;
  IsRate = IsPositive;
  count = whole;
  minus_IsCount = whole_minus;
  refilled_IsCount = whole_refilled;
  count-minus = whole_taken;
  count_mono = whole_mono;
}

abbrev pub limiter : Limiter numbers
limiter = record {
  rps = some 2;
  burst = some 3;
  by_ip = (b'c' ∷ [], record { tokens = some 1; last = 4 }) ∷ [];
}
