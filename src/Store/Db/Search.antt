-- ===== src/Store/Db/Search.antt =====
-- internal/store/store.go: the search of the two catalogs, `List` of `DB` and `MatchesQuery`. SQLite
-- folds the case of ASCII, and `strings.ToLower` that of Unicode.
use nx_cache.Common.{ℕ, ◌<◌, ◌≡◌, true, false, All, Text, is_empty, to_lower}
use nx_cache.Store.Types.{Letters, Entry}

abbrev pub IsAscii : Text → Type 0
IsAscii s = All (λ (c : ℕ). c < 128) s

-- What strings.ToLower does with a text of ASCII.
pub record LetterLaws (u : Letters) : Type 0 where
  pub lower_ascii : (s : Text) → IsAscii s → u.lower s ≡ to_lower s

-- An entry of ASCII texts whose label is its project and its target.
pub record IsPlain (e : Entry) : Type 0 where
  pub project : is_empty e.info.project ≡ false
  pub target : is_empty e.info.target ≡ false
  pub config : is_empty e.info.config ≡ true
  pub hash_ascii : IsAscii e.hash
  pub project_ascii : IsAscii e.info.project
  pub target_ascii : IsAscii e.info.target
  pub kind_ascii : IsAscii e.info.kind
