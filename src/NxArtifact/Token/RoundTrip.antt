-- ===== src/NxArtifact/Token/RoundTrip.antt =====
-- internal/nxartifact/inspect.go and internal/store/store.go: the label of a task is read back.
use nx_cache.Common.{
  ℕ, ◌≡◌, refl, ◌≢◌, inl, inr, true, false, some, List, [], ◌∷◌, ◌++◌, arith, Bool-cases, Text,
  is_empty, has_byte, extend_first, split, join, split_without,
}
use nx_cache.Store.Types.{label, TaskInfo}
use nx_cache.NxArtifact.Token.{parse_task_token}

split-append :
    (sep : ℕ) (s t : Text) → has_byte sep s ≡ false → split sep (s ++ sep ∷ t) ≡ s ∷ split sep t
unfolding split has_byte
split-append sep [] t h = ground arith
split-append sep (c ∷ s) t h = ground (arith, split-append sep s t)

split-ne-nil : (sep : ℕ) (s : Text) → split sep s ≢ []
unfolding split
split-ne-nil sep [] h = cc
split-ne-nil sep (c ∷ s) h = ground (arith, split-ne-nil sep s)

join-cons :
    (sep : ℕ) (p : Text) (ps : List Text) → ps ≢ [] → join sep (p ∷ ps) ≡ p ++ sep ∷ join sep ps
unfolding join
join-cons sep p [] h = absurd (h refl)
join-cons sep p (q ∷ ps) h = refl

join-extend_first :
    (sep c : ℕ) (ps : List Text) → ps ≢ [] → join sep (extend_first c ps) ≡ c ∷ join sep ps
unfolding join extend_first
join-extend_first sep c [] h = absurd (h refl)
join-extend_first sep c (p ∷ []) h = refl
join-extend_first sep c (p ∷ q ∷ ps) h = refl

join-split : (sep : ℕ) (s : Text) → join sep (split sep s) ≡ s
unfolding split
join-split sep [] = unfold join in refl
join-split sep (c ∷ s) =
    let rest = split sep s in
    let ne = split-ne-nil sep s in
    ground (arith, join-split sep s, join-cons sep [] rest ne, join-extend_first sep c rest ne)

module _ (p t : Text) (some_project : is_empty p ≡ false) (some_target : is_empty t ≡ false)
    (no_colon : has_byte b':' p ≡ false) (no_colon' : has_byte b':' t ≡ false) where
  parse_pair : parse_task_token (p ++ b':' ∷ t) ≡ some (p, t, [])
  unfolding parse_task_token join
  parse_pair = rw (split-append b':' p t no_colon, split_without b':' t no_colon') (ground arith)

  parse_triple : (c : Text) → parse_task_token (p ++ b':' ∷ (t ++ b':' ∷ c)) ≡ some (p, t, c)
  unfolding parse_task_token
  parse_triple c =
      rw (split-append b':' p (t ++ b':' ∷ c) no_colon, split-append b':' t c no_colon')
        (ground (arith, join-split b':' c))

is_empty-eq : (s : Text) → is_empty s ≡ true → s ≡ []
is_empty-eq [] h = refl
is_empty-eq (c ∷ s) h = cc

-- The label of a task with a project and a target, neither with a colon in it, is read back as its
-- project, target and configuration, whatever the configuration holds.
pub parse_task_token-label :
    (t : TaskInfo)
    → is_empty t.project ≡ false
    → is_empty t.target ≡ false
    → has_byte b':' t.project ≡ false
    → has_byte b':' t.target ≡ false
    → parse_task_token (label t) ≡ some (t.project, t.target, t.config)
unfolding label
parse_task_token-label t p q hp hq = elim (Bool-cases (is_empty t.config)) [
  | inl plain ↦
      rw (p, q, plain, is_empty-eq t.config plain) (parse_pair t.project t.target p q hp hq)
  | inr full ↦ rw (p, q, full) (parse_triple t.project t.target p q hp hq t.config)
]
