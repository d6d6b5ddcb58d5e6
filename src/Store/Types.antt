-- ===== src/Store/Types.antt =====
-- internal/store/store.go: the data of the catalog.
use nx_cache.Common.{
  ℕ, Bool, true, not, ◌&&◌, ◌||◌, List, [], ◌∷◌, ◌++◌, if◌then◌else◌, Text, is_empty, contains,
  Time,
}

pub record TaskInfo : Type 0 where
  pub project : Text
  pub target : Text
  pub config : Text
  pub kind : Text

abbrev pub no_info : TaskInfo
no_info = record { project = []; target = []; config = []; kind = [] }

-- TaskInfo.Empty: the configuration is not looked at.
unfoldable pub is_empty_info : TaskInfo → Bool
is_empty_info t = is_empty t.project && is_empty t.target && is_empty t.kind

-- TaskInfo.Label
unfoldable pub label : TaskInfo → Text
label t =
    if not (is_empty t.project) && not (is_empty t.target) && not (is_empty t.config)
    then t.project ++ b':' ∷ (t.target ++ b':' ∷ t.config)
    else if not (is_empty t.project) && not (is_empty t.target)
    then t.project ++ b':' ∷ t.target
    else if not (is_empty t.target)
    then t.target
    else if not (is_empty t.project)
    then t.project
    else []

-- `size` and `hits` are int64 in the source, and never negative there.
pub record Entry : Type 0 where
  pub hash : Text
  pub size : ℕ
  pub created_at : Time
  pub last_accessed_at : Time
  pub hits : ℕ
  pub info : TaskInfo

-- The zero value, which a map read gives for a missing key.
abbrev pub no_entry : Entry
no_entry = record {
  hash = [];
  size = 0;
  created_at = 0;
  last_accessed_at = 0;
  hits = 0;
  info = no_info;
}

pub record KindCount : Type 0 where
  pub kind : Text
  pub count : ℕ

pub record DayStat : Type 0 where
  pub day : Text
  pub hits : ℕ
  pub misses : ℕ
  pub stores : ℕ

pub record Stats : Type 0 where
  pub entries : ℕ
  pub total_size : ℕ
  pub hits : ℕ
  pub misses : ℕ
  pub stores : ℕ
  pub days : List DayStat
  pub by_kind : List KindCount

-- if new != "" { old = new }
abbrev pub override : Text → Text → Text
override old new = if is_empty new then old else new

-- The four assignments that UpsertEntry and UpdateTaskInfo make.
unfoldable pub fill_info : TaskInfo → TaskInfo → TaskInfo
fill_info old new = record {
  project = override old.project new.project;
  target = override old.target new.target;
  config = override old.config new.config;
  kind = override old.kind new.kind;
}

-- strings.ToLower and strings.TrimSpace, which go by the letters and the white space of Unicode.
pub record Letters : Type 0 where
  pub lower : Text → Text
  pub trim : Text → Text

-- Entry.MatchesQuery
unfoldable pub matches_query : Letters → Entry → Text → Bool
unfolding contains label
matches_query u e query =
    let q = u.lower (u.trim query) in
    if is_empty q
    then true
    else contains (u.lower e.hash) q
      || contains (u.lower e.info.project) q
      || contains (u.lower e.info.target) q
      || contains (u.lower e.info.kind) q
      || contains (u.lower (label e.info)) q
