-- ===== src/NxArtifact/Terminal.antt =====
-- internal/nxartifact/inspect.go: the task that a terminal's output names.
pub mod Parse
pub mod Kinded
use nx_cache.Common.{
  suc, zero, ℕ, Bool, true, false, not, ◌&&◌, ◌||◌, Option, none, some, List, [], ◌∷◌, ◌++◌, leb,
  ◌==◌, if◌then◌else◌, length, filter, any, Text, codes, text_eq, is_empty, has_prefix, is_space,
  to_lower, cut, split, join,
}
use nx_cache.Store.Types.{TaskInfo}
use nx_cache.NxArtifact.Patterns.{
  Engine, nx_run_re, nx_command_re, nx_target_re, tool_project_re, test_result_re, test_summary_re,
  test_command_re, command_re,
}
use nx_cache.NxArtifact.Kind.{one_of, kind_from_target, kind_from_paths, command_kind}
use nx_cache.NxArtifact.Token.{TaskName, parse_task_token, clean_token, trim_right_func}

-- strings.Fields(s)
unfoldable pub fields_from : Text → Text → List Text
unfolding is_space
fields_from word [] = if is_empty word then [] else word ∷ []
fields_from word (c ∷ s) =
    let next = fields_from [] s in
    let longer = fields_from (word ++ c ∷ []) s in
    if is_space c then (if is_empty word then next else word ∷ next) else longer

unfoldable pub fields : Text → List Text
unfolding fields_from
fields s = fields_from [] s

-- A byte of `0-9;`, and a letter.
abbrev pub is_parameter : ℕ → Bool
is_parameter c = leb b'0' c && leb c b'9' || c == b';'

abbrev pub is_letter : ℕ → Bool
is_letter c = leb b'a' c && leb c b'z' || leb b'A' c && leb c b'Z'

abbrev pub one_more : Option ℕ → Option ℕ
one_more none = none
one_more (some n) = some (suc n)

-- The length of a match of `[0-9;]*[A-Za-z]` at the front of a text.
unfoldable pub parameters_length : Text → Option ℕ
parameters_length [] = none
parameters_length (c ∷ s) =
    let rest = parameters_length s in
    if is_parameter c then one_more rest else if is_letter c then some 1 else none

-- The length of what ansiRe matches behind an escape byte.
unfoldable pub ansi_length : Text → Option ℕ
unfolding parameters_length
ansi_length [] = none
ansi_length (c ∷ s) = if c == b'[' then one_more (parameters_length s) else none

abbrev pub escape : ℕ
escape = 27

-- ansiRe.ReplaceAllString(s, ""): `skip` is how many bytes of a match are still to come.
unfoldable pub replace_ansi : ℕ → Text → Text
unfolding ansi_length
replace_ansi skip [] = []
replace_ansi (suc skip) (c ∷ s) = replace_ansi skip s
replace_ansi zero (c ∷ s) =
    let plain = c ∷ replace_ansi zero s in
    if c == escape then elim (ansi_length s) [ none ↦ plain | some n ↦ replace_ansi n s ] else plain

-- stripANSI
unfoldable pub strip_ansi : Text → Text
unfolding replace_ansi
strip_ansi s = replace_ansi zero (filter (λ c. not (c == 13)) s)

-- strings.HasPrefix(field, "-")
abbrev pub is_flag : Text → Bool
is_flag field = has_prefix field (codes "-")

-- The loop over the flags at the front.
unfoldable pub skip_flags : List Text → List Text
skip_flags [] = []
skip_flags (field ∷ fields) =
    let rest = skip_flags fields in if is_flag field then rest else field ∷ fields

-- fields[1:] of a package manager that takes `exec` or `run`.
unfoldable pub skip_exec : List Text → List Text
skip_exec [] = []
skip_exec (field ∷ fields) =
    if text_eq field (codes "exec") || text_eq field (codes "run") then fields else field ∷ fields

-- The switch over the command; `none` is its default.
unfoldable pub managed : Text → List Text → Option (List Text)
unfolding skip_exec
managed command fields =
    if text_eq command (codes "pnpm") || text_eq command (codes "npm")
    then some (skip_exec fields)
    else if one_of command (codes "npx" ∷ codes "bunx" ∷ codes "yarn" ∷ [])
    then some fields
    else none

-- fields[:end], with the end before the first flag.
unfoldable pub before_flags : List Text → List Text
before_flags [] = []
before_flags (field ∷ fields) =
    let rest = before_flags fields in if is_flag field then [] else field ∷ rest

abbrev pub joined : List Text → Option Text
joined [] = none
joined (field ∷ fields) = some (join b' ' (field ∷ fields))

unfoldable pub after_manager : Option (List Text) → Option Text
unfolding before_flags
after_manager none = none
after_manager (some fields) = joined (before_flags fields)

unfoldable pub command_of : List Text → Option Text
unfolding managed after_manager
command_of [] = none
command_of (command ∷ fields) = after_manager (managed command fields)

-- The first group of a match, if there is one.
abbrev pub group1 : List Text → Option Text
group1 [] = none
group1 (whole ∷ []) = none
group1 (whole ∷ group ∷ groups) = some group

-- The body of the loop over the matches, of which each has its group.
unfoldable pub command_of_match : List Text → Option Text
unfolding fields skip_flags command_of
command_of_match m = elim (group1 m) [
  | none ↦ none
  | some line ↦ command_of (skip_flags (fields line))
]

-- The loop, which starts at the last match.
unfoldable pub last_command : List (List Text) → Option Text
unfolding command_of_match
last_command [] = none
last_command (m ∷ matches) = elim (last_command matches) [
  | some command ↦ some command
  | none ↦ command_of_match m
]

unfoldable pub following : List Text → Option Text
following [] = none
following (part ∷ []) = none
following (part ∷ next ∷ parts) =
    let later = following (next ∷ parts) in
    if text_eq part (codes "apps") || text_eq part (codes "libs") then some next else later

-- projectFromPaths
unfoldable pub project_from_paths : List Text → Text
unfolding following split
project_from_paths [] = []
project_from_paths (name ∷ paths) = elim (following (split b'/' name)) [
  | some project ↦ project
  | none ↦ project_from_paths paths
]

abbrev pub is_target_flag : Text → Bool
is_target_flag name = one_of name (codes "-t" ∷ codes "--target" ∷ codes "--targets" ∷ [])

-- The targets that the arguments name. `pending` is whether an argument without a dash still belongs to
-- the flag before it.
unfoldable pub named_targets : Bool → List Text → List Text
unfolding split
named_targets pending [] = []
named_targets pending (arg ∷ args) =
    let (name, value, has_value) = cut b'=' arg in
    let closed = named_targets false args in
    let opened = named_targets true args in
    if pending && not (is_flag arg)
    then split b',' arg ++ opened
    else if not (is_target_flag name)
    then closed
    else if has_value
    then split b',' value ++ closed
    else opened

-- parseSingleNxTarget
unfoldable pub parse_single_nx_target : List Text → Option Text
unfolding named_targets
parse_single_nx_target args = elim (named_targets false args) [
  | [] ↦ none
  | target ∷ [] ↦ if is_empty target then none else some (clean_token target)
  | target ∷ other ∷ targets ↦ none
]
