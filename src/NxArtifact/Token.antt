-- ===== src/NxArtifact/Token.antt =====
-- internal/nxartifact/inspect.go: the task's name in one word, `project:target:configuration`.
pub mod RoundTrip
use nx_cache.Common.{
  ℕ, ◌-◌, ◌/◌, ◌*◌, ◌%◌, Bool, false, not, ◌&&◌, ◌||◌, Option, none, some, List, [], ◌∷◌, leb, ◌==◌,
  if◌then◌else◌, Text, is_empty, trim_right, cut, split, join,
}

-- project, target, configuration; `none` is a false `ok`
abbrev pub TaskName : Type 0
TaskName = Text × Text × Text

unfoldable pub from_parts : List Text → Option TaskName
from_parts [] = none
from_parts (p ∷ []) = none
from_parts (p ∷ t ∷ rest) = if is_empty p || is_empty t then none else some (p, t, join b':' rest)

-- parseTaskToken
unfoldable pub parse_task_token : Text → Option TaskName
unfolding from_parts
parse_task_token token = from_parts (split b':' token)

-- unicode.IsPunct of an ASCII character
unfoldable pub is_punct : ℕ → Bool
is_punct c =
    leb b'!' c && leb c b'#'
    || leb b'%' c && leb c b'*'
    || leb b',' c && leb c b'/'
    || c == b':'
    || c == b';'
    || c == b'?'
    || c == b'@'
    || leb 91 c && leb c 93
    || c == b'_'
    || c == b'{'
    || c == b'}'

unfoldable pub is_cut_off : ℕ → Bool
unfolding is_punct
is_cut_off c =
    is_punct c
    && not (c == b'/')
    && not (c == b'@')
    && not (c == b'-')
    && not (c == b'_')
    && not (c == b'.')

-- strings.TrimRightFunc
unfoldable pub trim_right_func : (ℕ → Bool) → Text → Text
trim_right_func f [] = []
trim_right_func f (c ∷ s) =
    let rest = trim_right_func f s in
    elim rest [ [] ↦ if f c then [] else c ∷ [] | d ∷ r ↦ c ∷ d ∷ r ]

-- cleanToken
unfoldable pub clean_token : Text → Text
unfolding is_cut_off trim_right_func
clean_token token = trim_right_func is_cut_off token
