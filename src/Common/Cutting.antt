-- ===== src/Common/Cutting.antt =====
-- What `Cut`, `Split` and `TrimSpace` do to texts that are put together of known parts.
use Prim.Native.Nat.{ℕ}
use mathlib.Core.Path.{◌≡◌, refl}
use mathlib.Core.Bool.{true, false, ◌||◌}
use mathlib.Core.List.{[], ◌∷◌, ◌++◌}
use native.Mathlib.Omega.{arith}
use nx_cache.Common.Strings.{
  Text, has_byte, is_space, trim_left, trim_right, trim_space, cut, split,
}

pub has_byte-append : (b : ℕ) (s t : Text) → has_byte b (s ++ t) ≡ (has_byte b s || has_byte b t)
unfolding has_byte
has_byte-append b [] t = refl
has_byte-append b (c ∷ s) t = ground (arith, has_byte-append b s t)

-- A text before the first separator is cut off whole.
pub cut-append :
    (sep : ℕ) (s t : Text) → has_byte sep s ≡ false → cut sep (s ++ sep ∷ t) ≡ (s, t, true)
unfolding cut has_byte
cut-append sep [] t h = ground arith
cut-append sep (c ∷ s) t h = ground (arith, cut-append sep s t)

pub cut_without : (sep : ℕ) (s : Text) → has_byte sep s ≡ false → (cut sep s).2 ≡ false
unfolding cut has_byte
cut_without sep [] h = refl
cut_without sep (c ∷ s) h = ground (arith, cut_without sep s)

pub split_without : (sep : ℕ) (s : Text) → has_byte sep s ≡ false → split sep s ≡ s ∷ []
unfolding split has_byte
split_without sep [] h = refl
split_without sep (c ∷ s) h = ground (arith, split_without sep s)

pub trim_left_lem : (c : ℕ) (s : Text) → is_space c ≡ false → trim_left (c ∷ s) ≡ c ∷ s
unfolding trim_left
trim_left_lem c s h = ground arith

pub trim_right-append :
    (s : Text) (c : ℕ) → is_space c ≡ false → trim_right (s ++ c ∷ []) ≡ s ++ c ∷ []
unfolding trim_right
trim_right-append [] c h = ground arith
trim_right-append (d ∷ []) c h = ground (arith, trim_right-append [] c h)
trim_right-append (d ∷ e ∷ s) c h = ground (arith, trim_right-append (e ∷ s) c h)

-- A text between two bytes that are no white space is not trimmed.
pub trim_space_lem :
    (c : ℕ) (s : Text) (d : ℕ)
    → is_space c ≡ false
    → is_space d ≡ false
    → trim_space (c ∷ (s ++ d ∷ [])) ≡ c ∷ (s ++ d ∷ [])
unfolding trim_space
trim_space_lem c s d hc hd = rw (trim_left_lem c (s ++ d ∷ []) hc) (trim_right-append (c ∷ s) d hd)
