-- ===== src/Common/Sort.antt =====
-- `sort.Slice(xs, less)` as an insertion sort. The source's sort is not stable, so nothing is
-- claimed of the order of items that `less` does not tell apart.
use Prim.Native.Nat.{ℕ, ◌+◌}
use mathlib.Core.Path.{◌≡◌, refl}
use mathlib.Core.Bool.{Bool, true, false, ◌||◌}
use mathlib.Core.List.{List, [], ◌∷◌, Perm}
use mathlib.Core.List.Perm
use native.Mathlib.Omega.{arith}
use nx_cache.Common.Tests.{if◌then◌else◌, Bool-cases}
use nx_cache.Common.Lists.{length, All, sum_by, any}
use mathlib.Core.Logic.{inl, inr}

module _ {ℓ} {A : Type ℓ} (less : A → A → Bool) where
  unfoldable pub insert_sorted : A → List A → List A
  insert_sorted x [] = x ∷ []
  insert_sorted x (y ∷ ys) = if less y x then y ∷ insert_sorted x ys else x ∷ y ∷ ys

  unfoldable pub sort_slice : List A → List A
  unfolding insert_sorted
  sort_slice [] = []
  sort_slice (x ∷ xs) = insert_sorted x (sort_slice xs)

  -- No item is less than one that stands before it.
  abbrev pub IsSortedBy : List A → Type 0
  IsSortedBy [] = Unit
  IsSortedBy (x ∷ xs) = All (λ y. less y x ≡ false) xs × IsSortedBy xs

  insert_sorted-Perm : (x : A) (ys : List A) → Perm (insert_sorted x ys) (x ∷ ys)
  unfolding insert_sorted
  insert_sorted-Perm x [] = Perm.refl (x ∷ [])
  insert_sorted-Perm x (y ∷ ys) = elim (Bool-cases (less y x)) [
    | inl before ↦ rw before (Perm.trans (Perm.cons y (insert_sorted-Perm x ys)) (Perm.swap x y ys))
    | inr after ↦ rw after (Perm.refl (x ∷ y ∷ ys))
  ]

  -- Sorting changes the order and nothing else.
  pub sort_slice-Perm : (xs : List A) → Perm (sort_slice xs) xs
  unfolding sort_slice
  sort_slice-Perm [] = Perm.refl []
  sort_slice-Perm (x ∷ xs) =
      Perm.trans (insert_sorted-Perm x (sort_slice xs)) (Perm.cons x (sort_slice-Perm xs))

  sum_by-insert_sorted :
      (f : A → ℕ) (x : A) (ys : List A) → sum_by f (insert_sorted x ys) ≡ f x + sum_by f ys
  unfolding insert_sorted
  sum_by-insert_sorted f x [] = refl
  sum_by-insert_sorted f x (y ∷ ys) = ground (arith, sum_by-insert_sorted f x ys)

  pub sum_by-sort_slice : (f : A → ℕ) (xs : List A) → sum_by f (sort_slice xs) ≡ sum_by f xs
  unfolding sort_slice
  sum_by-sort_slice f [] = refl
  sum_by-sort_slice f (x ∷ xs) =
      omega (arith, sum_by-insert_sorted f x (sort_slice xs), sum_by-sort_slice f xs)

  length-insert_sorted : (x : A) (ys : List A) → length (insert_sorted x ys) ≡ length ys + 1
  unfolding insert_sorted
  length-insert_sorted x [] = refl
  length-insert_sorted x (y ∷ ys) = ground (arith, length-insert_sorted x ys)

  pub length-sort_slice : (xs : List A) → length (sort_slice xs) ≡ length xs
  unfolding sort_slice
  length-sort_slice [] = refl
  length-sort_slice (x ∷ xs) =
      omega (arith, length-insert_sorted x (sort_slice xs), length-sort_slice xs)

  any-insert_sorted :
      (p : A → Bool) (x : A) (ys : List A) → any p (insert_sorted x ys) ≡ (p x || any p ys)
  unfolding insert_sorted
  any-insert_sorted p x [] = refl
  any-insert_sorted p x (y ∷ ys) = ground (arith, any-insert_sorted p x ys)

  pub any-sort_slice : (p : A → Bool) (xs : List A) → any p (sort_slice xs) ≡ any p xs
  unfolding sort_slice
  any-sort_slice p [] = refl
  any-sort_slice p (x ∷ xs) =
      ground (arith, any-insert_sorted p x (sort_slice xs), any-sort_slice p xs)

  module _ {κ} (P : A → Type κ) where
    All-insert_sorted : (x : A) (ys : List A) → P x → All P ys → All P (insert_sorted x ys)
    unfolding insert_sorted
    All-insert_sorted x [] hx hs = (hx, tt)
    All-insert_sorted x (y ∷ ys) hx hs = elim (Bool-cases (less y x)) [
      | inl before ↦ rw before (hs.0, All-insert_sorted x ys hx hs.1)
      | inr after ↦ rw after (hx, hs)
    ]

    pub All-sort_slice : (xs : List A) → All P xs → All P (sort_slice xs)
    unfolding sort_slice
    All-sort_slice [] h = tt
    All-sort_slice (x ∷ xs) h = All-insert_sorted x (sort_slice xs) h.0 (All-sort_slice xs h.1)

  -- For a strict order: what is less is not greater, and "not less" is transitive.
  module _ (asym : (x y : A) → less x y ≡ true → less y x ≡ false)
      (trans : (x y z : A) → less y x ≡ false → less z y ≡ false → less z x ≡ false) where
    All-not_less :
        (x y : A) (ys : List A)
        → less y x ≡ false
        → All (λ z. less z y ≡ false) ys
        → All (λ z. less z x ≡ false) ys
    All-not_less x y [] h hs = tt
    All-not_less x y (z ∷ ys) h hs = (trans x y z h hs.0, All-not_less x y ys h hs.1)

    insert_sorted-IsSortedBy :
        (x : A) (ys : List A) → IsSortedBy ys → IsSortedBy (insert_sorted x ys)
    unfolding insert_sorted
    insert_sorted-IsSortedBy x [] h = (tt, tt)
    insert_sorted-IsSortedBy x (y ∷ ys) h = elim (Bool-cases (less y x)) [
      | inl before ↦ rw before (
        All-insert_sorted (λ z. less z y ≡ false) x ys (asym y x before) h.0,
        insert_sorted-IsSortedBy x ys h.1,
      )
      | inr after ↦ rw after ((after, All-not_less x y ys after h.0), h)
    ]

    pub sort_slice-IsSortedBy : (xs : List A) → IsSortedBy (sort_slice xs)
    unfolding sort_slice
    sort_slice-IsSortedBy [] = tt
    sort_slice-IsSortedBy (x ∷ xs) =
        insert_sorted-IsSortedBy x (sort_slice xs) (sort_slice-IsSortedBy xs)
