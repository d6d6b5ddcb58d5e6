-- ===== src/NxArtifact/Terminal/Kinded.antt =====
-- internal/nxartifact/inspect.go: which tasks have a kind.
use nx_cache.Common.{
  ◌≡◌, refl, ◌∙◌, false, Option, none, some, List, [], ◌∷◌, arith, Text, is_empty, to_lower,
  trim_space,
}
use nx_cache.Store.Types.{TaskInfo}
use nx_cache.NxArtifact.Patterns.{Engine}
use nx_cache.NxArtifact.Kind.{
  exact_kind, partial_kind, kind_of_lower, kind_from_target, kind_from_paths,
}
use nx_cache.NxArtifact.Terminal.{strip_ansi}
use nx_cache.NxArtifact.Terminal.Parse.{complete, finalize, from_text}

-- No kind that the first switch finds is empty.
exact_kind-nonempty : (t kind : Text) → exact_kind t ≡ some kind → is_empty kind ≡ false
unfolding exact_kind
exact_kind-nonempty t kind h = ground arith

partial_kind-nonempty : (t : Text) → is_empty t ≡ false → is_empty (partial_kind t) ≡ false
unfolding partial_kind
partial_kind-nonempty t h = ground arith

chosen-nonempty :
    (k : Option Text) (other : Text)
    → ((kind : Text) → k ≡ some kind → is_empty kind ≡ false)
    → is_empty other ≡ false
    → is_empty (elim k [ some kind ↦ kind | none ↦ other ]) ≡ false
chosen-nonempty none other some_there h = h
chosen-nonempty (some kind) other some_there h = some_there kind refl

kind_of_lower-nonempty : (t : Text) → is_empty t ≡ false → is_empty (kind_of_lower t) ≡ false
unfolding kind_of_lower
kind_of_lower-nonempty [] h = ground arith
kind_of_lower-nonempty (c ∷ t) h =
    chosen-nonempty (exact_kind (c ∷ t)) (partial_kind (c ∷ t)) (exact_kind-nonempty (c ∷ t))
      (partial_kind-nonempty (c ∷ t) h)

is_empty-to_lower : (t : Text) → is_empty (to_lower t) ≡ is_empty t
unfolding to_lower
is_empty-to_lower [] = refl
is_empty-to_lower (c ∷ t) = refl

kind_from_target-nonempty :
    (target : Text)
    → is_empty (trim_space target) ≡ false
    → is_empty (kind_from_target target) ≡ false
unfolding kind_from_target
kind_from_target-nonempty target h =
    kind_of_lower-nonempty (to_lower (trim_space target))
      (is_empty-to_lower (trim_space target) ∙ h)

trim_space-nonempty : (t : Text) → is_empty (trim_space t) ≡ false → is_empty t ≡ false
unfolding trim_space
trim_space-nonempty [] h = h
trim_space-nonempty (c ∷ t) h = refl

-- The last steps: a target that is not blank, from the terminal or from the paths, comes with a kind.
complete-kind :
    (engine : Engine) (info : TaskInfo) (paths : List Text)
    → is_empty (trim_space (complete engine info paths).target) ≡ false
    → is_empty (complete engine info paths).kind ≡ false
unfolding complete
complete-kind engine info paths h =
    let known = kind_from_target-nonempty info.target in
    let there = trim_space-nonempty (kind_from_paths paths) in ground arith

-- A task whose target is not blank has a kind, whatever the terminal's output and the paths are.
pub finalize-kind :
    (engine : Engine) (info : TaskInfo) (terminal : Text) (paths : List Text)
    → is_empty (trim_space (finalize engine info terminal paths).target) ≡ false
    → is_empty (finalize engine info terminal paths).kind ≡ false
unfolding finalize
finalize-kind engine info terminal paths h =
    complete-kind engine (from_text engine info (strip_ansi terminal)) paths h
