-- ===== src/Store/Db/Like.antt =====
-- internal/store/store.go: `likeContains`, and the operator LIKE ? ESCAPE '\' that reads its pattern.
use nx_cache.Common.{
  ℕ, Bool, true, false, ◌&&◌, ◌||◌, List, [], ◌∷◌, ◌++◌, ◌==◌, if◌then◌else◌, Text, is_empty,
  lower_byte,
}

-- Case counts for no ASCII letter.
pub data Wild : Type 0 where
  letter : ℕ → Wild
  any_one any_run never : Wild

-- What a pattern says; `escaped` holds behind the escape character, which must not stand last.
unfoldable pub wilds : (escaped : Bool) → Text → List Wild
wilds true [] = never ∷ []
wilds false [] = []
wilds true (c ∷ p) = letter c ∷ wilds false p
wilds false (c ∷ p) =
    let taken = wilds true p in
    let rest = wilds false p in
    if c == b'\\'
    then taken
    else if c == b'%'
    then any_run ∷ rest
    else if c == b'_'
    then any_one ∷ rest
    else letter c ∷ rest

-- Some end of the text passes.
unfoldable pub anywhere : (Text → Bool) → Text → Bool
anywhere f [] = f []
anywhere f (c ∷ s) = f (c ∷ s) || anywhere f s

unfoldable pub fits : List Wild → Text → Bool
unfolding anywhere lower_byte
fits [] s = is_empty s
fits (never ∷ p) s = false
fits (any_run ∷ p) s = anywhere (fits p) s
fits (any_one ∷ p) [] = false
fits (any_one ∷ p) (c ∷ s) = fits p s
fits (letter d ∷ p) [] = false
fits (letter d ∷ p) (c ∷ s) = lower_byte c == lower_byte d && fits p s

-- text LIKE pattern ESCAPE '\'
unfoldable pub like : Text → Text → Bool
unfolding wilds fits
like pattern s = fits (wilds false pattern) s

-- r.Replace(q), for the three pairs of the replacer
unfoldable pub replace_wild : Text → Text
replace_wild [] = []
replace_wild (c ∷ q) =
    let rest = replace_wild q in
    if c == b'\\' || c == b'%' || c == b'_' then b'\\' ∷ c ∷ rest else c ∷ rest

unfoldable pub like_contains : Text → Text
unfolding replace_wild
like_contains q = b'%' ∷ (replace_wild q ++ b'%' ∷ [])

abbrev letters : Text → List Wild
letters [] = any_run ∷ []
letters (c ∷ q) = letter c ∷ letters q
