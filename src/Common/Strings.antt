-- ===== src/Common/Strings.antt =====
-- Go strings as lists of bytes, and the functions of `strings` that the program calls.
-- Case and white space are those of ASCII.
use Prim.Native.Nat.{ℕ, ◌+◌}
use Prim.Native.Char.{code}
use Prim.Native.String.{String}
use mathlib.Core.Path.{◌≡◌, refl}
use mathlib.Core.Logic.{◌↔◌}
use mathlib.Core.Bool.{Bool, true, false, ◌&&◌, ◌||◌}
use mathlib.Core.Option.{Option, none, some}
use mathlib.Core.List.{List, [], ◌∷◌, ◌++◌}
use native.Mathlib.Omega.{arith}
use nx_cache.Common.Tests.{leb, ◌==◌, if◌then◌else◌}

abbrev pub Text : Type 0
Text = List ℕ

-- The code points of a literal: its bytes, where the text is ASCII.
abbrev pub codes : String → Text
codes (String.◌∷◌ letter more) = code letter ∷ codes more
codes String.[] = []

-- s == t
unfoldable pub text_eq : Text → Text → Bool
text_eq [] [] = true
text_eq (c ∷ s) (d ∷ t) = c == d && text_eq s t
text_eq _ _ = false

pub text_eq_refl : (s : Text) → text_eq s s ≡ true
unfolding text_eq
text_eq_refl [] = refl
text_eq_refl (c ∷ s) = ground (arith, text_eq_refl s)

pub eq_of_text_eq : (s t : Text) → text_eq s t ≡ true → s ≡ t
unfolding text_eq
eq_of_text_eq [] [] h = refl
eq_of_text_eq [] (d ∷ t) h = cc
eq_of_text_eq (c ∷ s) [] h = cc
eq_of_text_eq (c ∷ s) (d ∷ t) h = ground (arith, eq_of_text_eq s t)

pub text_eq_iff : (s t : Text) → (text_eq s t ≡ true) ↔ (s ≡ t)
text_eq_iff s t = (eq_of_text_eq s t, λ e. rw e (text_eq_refl t))

-- s == ""
abbrev pub is_empty : Text → Bool
is_empty [] = true
is_empty (_ ∷ _) = false

-- strings.HasPrefix(s, p)
unfoldable pub has_prefix : Text → Text → Bool
has_prefix s [] = true
has_prefix [] (d ∷ p) = false
has_prefix (c ∷ s) (d ∷ p) = c == d && has_prefix s p

-- strings.HasSuffix(s, p)
unfoldable pub has_suffix : Text → Text → Bool
unfolding text_eq
has_suffix [] p = is_empty p
has_suffix (c ∷ s) p = text_eq (c ∷ s) p || has_suffix s p

-- What is left of `s` behind `p`, if `s` begins with it.
unfoldable pub strip_prefix? : Text → Text → Option Text
strip_prefix? s [] = some s
strip_prefix? [] (d ∷ p) = none
strip_prefix? (c ∷ s) (d ∷ p) = let rest = strip_prefix? s p in if c == d then rest else none

-- strings.TrimPrefix(s, p)
unfoldable pub trim_prefix : Text → Text → Text
unfolding strip_prefix?
trim_prefix s p = elim (strip_prefix? s p) [ none ↦ s | some rest ↦ rest ]

-- strings.Contains(s, p)
unfoldable pub contains : Text → Text → Bool
unfolding has_prefix
contains [] p = has_prefix [] p
contains (c ∷ s) p = has_prefix (c ∷ s) p || contains s p

-- strings.IndexByte(s, b) >= 0
unfoldable pub has_byte : ℕ → Text → Bool
has_byte b [] = false
has_byte b (c ∷ s) = c == b || has_byte b s

unfoldable pub lower_byte : ℕ → ℕ
lower_byte c = if leb b'A' c && leb c b'Z' then c + 32 else c

-- strings.ToLower(s)
unfoldable pub to_lower : Text → Text
unfolding lower_byte
to_lower [] = []
to_lower (c ∷ s) = lower_byte c ∷ to_lower s

unfoldable pub is_space : ℕ → Bool
is_space c = c == 32 || leb 9 c && leb c 13

unfoldable pub trim_left : Text → Text
unfolding is_space
trim_left [] = []
trim_left (c ∷ s) = let rest = trim_left s in if is_space c then rest else c ∷ s

unfoldable pub trim_right : Text → Text
unfolding is_space
trim_right [] = []
trim_right (c ∷ s) =
    let rest = trim_right s in
    elim rest [ [] ↦ if is_space c then [] else c ∷ [] | d ∷ r ↦ c ∷ d ∷ r ]

-- strings.TrimSpace(s)
unfoldable pub trim_space : Text → Text
unfolding trim_left trim_right
trim_space s = trim_right (trim_left s)

-- strings.Cut(s, sep) at a separator of one byte: before, after, found.
unfoldable pub cut : ℕ → Text → Text × Text × Bool
cut sep [] = ([], [], false)
cut sep (c ∷ s) =
    let (before, after, found) = cut sep s in
    if c == sep then ([], s, true) else (c ∷ before, after, found)

-- One more byte in front of the first part.
unfoldable pub extend_first : ℕ → List Text → List Text
extend_first c [] = (c ∷ []) ∷ []
extend_first c (p ∷ ps) = (c ∷ p) ∷ ps

-- strings.Split(s, sep) at a separator of one byte.
unfoldable pub split : ℕ → Text → List Text
unfolding extend_first
split sep [] = [] ∷ []
split sep (c ∷ s) = let rest = split sep s in if c == sep then [] ∷ rest else extend_first c rest

-- strings.Join(parts, sep) with a separator of one byte.
unfoldable pub join : ℕ → List Text → Text
join sep [] = []
join sep (p ∷ []) = p
join sep (p ∷ q ∷ ps) = p ++ sep ∷ join sep (q ∷ ps)
