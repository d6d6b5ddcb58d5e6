-- ===== src/NxArtifact/Kind.antt =====
-- internal/nxartifact/inspect.go: the kind of a task, and how two sources of information are merged.
use nx_cache.Common.{
  Bool, false, not, ◌||◌, Option, none, some, List, [], ◌∷◌, if◌then◌else◌, Text, codes, text_eq,
  is_empty, has_prefix, contains, to_lower, trim_space,
}
use nx_cache.Store.Types.{override, TaskInfo}

-- case t is one of the texts
abbrev pub one_of : Text → List Text → Bool
one_of t [] = false
one_of t (s ∷ ss) = text_eq t s || one_of t ss

-- strings.Contains for some of the texts
abbrev pub contains_one_of : Text → List Text → Bool
contains_one_of t [] = false
contains_one_of t (s ∷ ss) = contains t s || contains_one_of t ss

-- The first switch: the target as a whole.
unfoldable pub exact_kind : Text → Option Text
exact_kind t =
    if one_of t (
      codes "e2e"
      ∷ codes "e2e-ci"
      ∷ codes "cypress"
      ∷ codes "playwright"
      ∷ codes "playwright-e2e"
      ∷ [])
    then some (codes "e2e")
    else if one_of t (codes "lint" ∷ codes "eslint" ∷ codes "prettier" ∷ codes "stylelint" ∷ [])
    then some (codes "lint")
    else if one_of t (
        codes "test"
        ∷ codes "test-ci"
        ∷ codes "jest"
        ∷ codes "vitest"
        ∷ codes "unit-test"
        ∷ codes "spec"
        ∷ [])
    then some (codes "test")
    else if one_of t (codes "typecheck" ∷ codes "check-types" ∷ codes "tsc" ∷ [])
    then some (codes "typecheck")
    else if one_of t (
        codes "build" ∷ codes "compile" ∷ codes "bundle" ∷ codes "package" ∷ codes "prerender" ∷ [])
    then some (codes "build")
    else none

-- The second switch: a part of the target.
unfoldable pub partial_kind : Text → Text
partial_kind t =
    if contains_one_of t (codes "e2e" ∷ codes "playwright" ∷ codes "cypress" ∷ [])
    then codes "e2e"
    else if contains t (codes "lint")
    then codes "lint"
    else if contains_one_of t (codes "test" ∷ codes "jest" ∷ codes "vitest" ∷ [])
    then codes "test"
    else if contains t (codes "typecheck")
    then codes "typecheck"
    else if contains_one_of t (codes "build" ∷ codes "compile" ∷ [])
    then codes "build"
    else t

unfoldable pub kind_of_lower : Text → Text
unfolding exact_kind partial_kind
kind_of_lower [] = []
kind_of_lower (c ∷ t) = elim (exact_kind (c ∷ t)) [ some kind ↦ kind | none ↦ partial_kind (c ∷ t) ]

-- KindFromTarget
unfoldable pub kind_from_target : Text → Text
unfolding kind_of_lower
kind_from_target target = kind_of_lower (to_lower (trim_space target))

unfoldable pub path_kind : Text → Option Text
path_kind l =
    if contains_one_of l (codes "coverage" ∷ codes "jest" ∷ codes "vitest" ∷ [])
    then some (codes "test")
    else if contains_one_of l (codes "eslint" ∷ codes ".eslintcache" ∷ [])
    then some (codes "lint")
    else if contains_one_of l (codes "playwright" ∷ codes "cypress" ∷ [])
    then some (codes "e2e")
    else if contains l (codes "/dist/")
        || has_prefix l (codes "dist/")
        || contains_one_of l (codes "/.next/" ∷ codes "/build/" ∷ codes "outputs/dist" ∷ [])
    then some (codes "build")
    else none

-- KindFromPaths: the kind of the first path that has one.
unfoldable pub kind_from_paths : List Text → Text
unfolding path_kind
kind_from_paths [] = []
kind_from_paths (p ∷ ps) = elim (path_kind (to_lower p)) [
  | some kind ↦ kind
  | none ↦ kind_from_paths ps
]

-- commandKind
unfoldable pub command_kind : Text → Text
unfolding kind_from_target
command_kind command =
    let kind = kind_from_target command in
    if one_of kind (
      codes "build"
      ∷ codes "test"
      ∷ codes "lint"
      ∷ codes "e2e"
      ∷ codes "typecheck"
      ∷ codes "serve"
      ∷ [])
    then kind
    else []

-- firstHeader, with the values of the two names
unfoldable pub first_header : Text → Text → Text
first_header a b = let v = trim_space a in if not (is_empty v) then v else trim_space b

-- The request's headers, each under both of its names: X-Nx-… and Nx-….
pub record TaskHeaders : Type 0 where
  pub x_project : Text
  pub project : Text
  pub x_target : Text
  pub target : Text
  pub x_configuration : Text
  pub configuration : Text

-- FromHeaders
unfoldable pub from_headers : TaskHeaders → TaskInfo
unfolding first_header kind_from_target
from_headers h =
    let target = first_header h.x_target h.target in
    record {
      project = first_header h.x_project h.project;
      target = target;
      config = first_header h.x_configuration h.configuration;
      kind = kind_from_target target;
    }

-- Merge
unfoldable pub merge : TaskInfo → TaskInfo → TaskInfo
unfolding kind_from_target
merge primary fallback =
    let target = override fallback.target primary.target in
    record {
      project = override fallback.project primary.project;
      target = target;
      config = override fallback.config primary.config;
      kind =
          (if not (is_empty primary.kind)
            then primary.kind
            else if not (is_empty fallback.kind)
            then fallback.kind
            else kind_from_target target);
    }
