-- ===== src/Common/Lists.antt =====
-- Lists measured by native numbers, under the library's names, and predicates on all their items.
use Prim.Native.Nat.add
use Prim.Native.Nat.{suc, zero, ℕ, ◌-◌, ◌+◌, ◌≤◌, min}
use mathlib.Core.Path.{◌≡◌, refl, ap, sym}
use mathlib.Core.Bool.{Bool, false, ◌||◌, ◌&&◌}
use mathlib.Core.Option.{Option, none, some}
use mathlib.Core.List.{List, [], ◌∷◌, ◌++◌}
use native.Mathlib.Omega.{arith}
use nx_cache.Common.Tests.{if◌then◌else◌}

module _ {ℓ} {A : Type ℓ} where
  abbrev pub length : List A → ℕ
  length (e ∷ es) = suc (length es)
  length [] = 0

  abbrev pub get_elem? : List A → ℕ → Option A
  get_elem? [] i = none
  get_elem? (e ∷ es) zero = some e
  get_elem? (e ∷ es) (suc i) = get_elem? es i

  abbrev pub get_or : List A → ℕ → A → A
  get_or [] i d = d
  get_or (e ∷ es) zero d = e
  get_or (e ∷ es) (suc i) d = get_or es i d

  abbrev pub take : ℕ → List A → List A
  take (suc n) (e ∷ es) = e ∷ take n es
  take (suc n) [] = []
  take zero es = []

  abbrev pub drop : ℕ → List A → List A
  drop zero es = es
  drop (suc n) [] = []
  drop (suc n) (e ∷ es) = drop n es

  -- The items that pass a Boolean test.
  abbrev pub filter : (A → Bool) → List A → List A
  filter p [] = []
  filter p (e ∷ es) = let rest = filter p es in if p e then e ∷ rest else rest

  -- Whether some item passes a Boolean test.
  abbrev pub any : (A → Bool) → List A → Bool
  any p [] = false
  any p (e ∷ es) = p e || any p es

  abbrev pub sum_by : (A → ℕ) → List A → ℕ
  sum_by f [] = 0
  sum_by f (e ∷ es) = f e + sum_by f es

  pub length-append : (es fs : List A) → length (es ++ fs) ≡ length es + length fs
  length-append [] fs = omega arith
  length-append (e ∷ es) fs = omega (arith, length-append es fs)

  pub sum_by-append : (f : A → ℕ) (es fs : List A) → sum_by f (es ++ fs) ≡ sum_by f es + sum_by f fs
  sum_by-append f [] fs = omega arith
  sum_by-append f (e ∷ es) fs = omega (arith, sum_by-append f es fs)

  pub any-filter : (p q : A → Bool) (es : List A) → any p (filter q es) ≡ any (λ e. q e && p e) es
  any-filter p q [] = refl
  any-filter p q (e ∷ es) = ground (arith, any-filter p q es)

  pub length-filter-le : (p : A → Bool) (es : List A) → length (filter p es) ≤ length es
  length-filter-le p [] = omega arith
  length-filter-le p (e ∷ es) = ground (arith, length-filter-le p es)

  pub take-append-drop : (n : ℕ) (es : List A) → take n es ++ drop n es ≡ es
  take-append-drop zero es = refl
  take-append-drop (suc n) [] = refl
  take-append-drop (suc n) (e ∷ es) = ap (◌∷◌ e) (take-append-drop n es)

  pub length-take : (n : ℕ) (es : List A) → length (take n es) ≡ min n (length es)
  length-take zero es = omega arith
  length-take (suc n) [] = omega arith
  length-take (suc n) (e ∷ es) = omega (arith, length-take n es)

  pub take_of_length-le : (limit : ℕ) (es : List A) → length es ≤ limit → take limit es ≡ es
  take_of_length-le (suc n) (e ∷ es) few = ap (λ l. e ∷ l) (take_of_length-le n es (omega arith))
  take_of_length-le zero (e ∷ es) few = ground arith
  take_of_length-le (suc n) [] few = refl
  take_of_length-le zero [] few = refl

  pub length-drop : (n : ℕ) (es : List A) → length (drop n es) ≡ length es - n
  length-drop zero es = omega arith
  length-drop (suc n) [] = omega arith
  length-drop (suc n) (e ∷ es) = omega (arith, length-drop n es)

module _ {ℓ} {A : Type ℓ} where
  pub drop_of_length-le : (n : ℕ) (es : List A) → length es ≤ n → drop n es ≡ []
  drop_of_length-le zero [] h = refl
  drop_of_length-le zero (e ∷ es) h = absurd (omega arith)
  drop_of_length-le (suc n) [] h = refl
  drop_of_length-le (suc n) (e ∷ es) h = drop_of_length-le n es (omega arith)

  pub take-nil : (n : ℕ) (es : List A) → es ≡ [] → take n es ≡ es
  take-nil zero es h = sym h
  take-nil (suc n) [] h = refl
  take-nil (suc n) (e ∷ es) h = cc

  pub drop-take-add : (k n : ℕ) (es : List A) → drop k (take (k + n) es) ≡ take n (drop k es)
  drop-take-add zero n es = ground arith
  drop-take-add (suc k) n [] = ground (arith, take-nil n [], take-nil (suc k + n) [])
  drop-take-add (suc k) n (e ∷ es) = rw add.suc (drop-take-add k n es)

  pub drop-drop : (k n : ℕ) (es : List A) → drop n (drop k es) ≡ drop (k + n) es
  drop-drop zero n es = ground arith
  drop-drop (suc k) n [] = ground (arith, drop_of_length-le n [], drop_of_length-le (suc k + n) [])
  drop-drop (suc k) n (e ∷ es) = rw add.suc (drop-drop k n es)

  -- A first part of `a` items and the next `b` items are the first `a + b` items.
  pub take-append-take : (a b : ℕ) (es : List A) → take a es ++ take b (drop a es) ≡ take (a + b) es
  take-append-take zero b es = ground arith
  take-append-take (suc a) b [] = ground (arith, take-nil b [], take-nil (suc a + b) [])
  take-append-take (suc a) b (e ∷ es) = rw add.suc (ap (◌∷◌ e) (take-append-take a b es))

module _ {ℓ κ} {A : Type ℓ} (P : A → Type κ) where
  abbrev pub All : List A → Type κ
  All [] = Unit
  All (e ∷ es) = P e × All es

  pub All-append : (es fs : List A) → All es → All fs → All (es ++ fs)
  All-append [] fs hx hy = hy
  All-append (e ∷ es) fs hx hy = (hx.0, All-append es fs hx.1 hy)
