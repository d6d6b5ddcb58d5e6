-- ===== src/Web/Units.antt =====
-- internal/web/models.go: the unit in which a size is written.
use nx_cache.Common.{
  ◌⊎◌, suc, ℕ, ◌+◌, ◌*◌, ◌/◌, ◌^◌, ◌≤◌, ◌<◌, ◌≡◌, inl, inr, true, false, Bool-cases, leb, leb→le,
  arith,
}
use nx_cache.Web.{units}

-- The divisor is that of a unit which there is a letter for, and the quotient is at least 1 and less
-- than 1024.
abbrev pub Fits : ℕ → ℕ × ℕ → Type 0
Fits n (div, exp) = (exp < 6) × (div ≤ n) × (n < 1024 * div)

leb-cases : (a b : ℕ) → ((leb a b ≡ true) × (a ≤ b)) ⊎ ((leb a b ≡ false) × (b < a))
leb-cases a b = elim (Bool-cases (leb a b)) [
  | inl h ↦ inl (h, leb→le a b h)
  | inr h ↦ inr (h, ground arith)
]

-- One pass of the loop, for the size `n`.
units-step :
    (n fuel val div exp : ℕ)
    → (val < 1024 → Fits n (div, exp))
    → (1024 ≤ val → Fits n (units fuel (val / 1024) (div * 1024) (exp + 1)))
    → Fits n (units (suc fuel) val div exp)
unfolding units
units-step n fuel val div exp stop go = elim (leb-cases 1024 val) [
  | inl (test, le) ↦ rw test (go le)
  | inr (test, lt) ↦ rw test (stop lt)
]

-- The loop of FormatBytes over a size of at least 1024 that is an int64 ends within six passes, at a
-- unit that there is a letter for, in which the size is at least 1 and less than 1024.
pub units-Fits : (n : ℕ) → 1024 ≤ n → n < 2 ^ 63 → Fits n (units 6 (n / 1024) 1024 0)
units-Fits n low high =
    units-step n 5 _ _ 0 (λ a. (omega arith, omega arith, omega arith))
      (λ a.
        units-step n 4 _ _ 1 (λ b. (omega arith, omega arith, omega arith))
          (λ b.
            units-step n 3 _ _ 2 (λ c. (omega arith, omega arith, omega arith))
              (λ c.
                units-step n 2 _ _ 3 (λ d. (omega arith, omega arith, omega arith))
                  (λ d.
                    units-step n 1 _ _ 4 (λ e. (omega arith, omega arith, omega arith))
                      (λ e.
                        units-step n 0 _ _ 5 (λ g. (omega arith, omega arith, omega arith))
                          (λ g. absurd (omega arith)))))))
