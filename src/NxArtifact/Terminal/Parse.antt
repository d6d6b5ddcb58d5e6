-- ===== src/NxArtifact/Terminal/Parse.antt =====
-- internal/nxartifact/inspect.go: the parsers of a terminal's output in their order, and what they
-- make of the task.
use nx_cache.Common.{
  ℕ, Bool, ◌||◌, Option, none, some, List, [], ◌∷◌, ◌==◌, if◌then◌else◌, Text, codes, text_eq,
  is_empty, to_lower,
}
use nx_cache.Store.Types.{TaskInfo}
use nx_cache.NxArtifact.Patterns.{
  Engine, nx_run_re, nx_command_re, nx_target_re, tool_project_re, test_result_re, test_summary_re,
  test_command_re, command_re,
}
use nx_cache.NxArtifact.Kind.{one_of, kind_from_target, kind_from_paths, command_kind}
use nx_cache.NxArtifact.Token.{TaskName, parse_task_token, clean_token, trim_right_func}
use nx_cache.NxArtifact.Terminal.{
  fields, group1, is_flag, last_command, parse_single_nx_target, project_from_paths, strip_ansi,
}

-- FindStringSubmatch and the test of its length: the first group.
unfoldable pub first_group : Option (List Text) → Option Text
first_group none = none
first_group (some m) = group1 m

-- The first two groups.
unfoldable pub two_groups : Option (List Text) → Option (Text × Text)
two_groups none = none
two_groups (some []) = none
two_groups (some (whole ∷ [])) = none
two_groups (some (whole ∷ a ∷ [])) = none
two_groups (some (whole ∷ a ∷ b ∷ groups)) = some (a, b)

unfoldable pub run_token : Option Text → Option TaskName
unfolding clean_token parse_task_token
run_token none = none
run_token (some token) = parse_task_token (clean_token token)

abbrev pub only_target : Option Text → Option TaskName
only_target none = none
only_target (some target) = some ([], target, [])

-- The fields behind `nx`, two or more.
unfoldable pub nx_fields : Text → Text → List Text → Option TaskName
unfolding clean_token parse_task_token parse_single_nx_target
nx_fields first second others =
    if is_flag first
    then none
    else if one_of (to_lower first) (codes "running" ∷ codes "ran" ∷ codes "successfully" ∷ [])
    then none
    else if text_eq first (codes "run")
    then parse_task_token (clean_token second)
    else if text_eq first (codes "run-many")
    then only_target (parse_single_nx_target (second ∷ others))
    else if is_flag second
    then none
    else some (clean_token second, clean_token first, [])

unfoldable pub nx_line : List Text → Option TaskName
unfolding nx_fields
nx_line [] = none
nx_line (first ∷ []) = none
nx_line (first ∷ second ∷ others) = nx_fields first second others

unfoldable pub nx_command : Option Text → Option TaskName
unfolding nx_line fields
nx_command none = none
nx_command (some line) = nx_line (fields line)

unfoldable pub is_dot_or_colon : ℕ → Bool
is_dot_or_colon c = c == b'.' || c == b':'

-- project, target
unfoldable pub target_line : Option (Text × Text) → Option (Text × Text)
unfolding is_dot_or_colon trim_right_func
target_line none = none
target_line (some (target, project)) = some (trim_right_func is_dot_or_colon project, target)

unfoldable pub tool_project : Option (Text × Text) → Option (Text × Text)
unfolding command_kind clean_token
tool_project none = none
tool_project (some (tool, project)) =
    let kind = command_kind tool in if is_empty kind then none else some (clean_token project, kind)

module _ (engine : Engine) where
  unfoldable pub parse_nx_run : Text → Option TaskName
  unfolding run_token first_group
  parse_nx_run text = run_token (first_group (engine.find_submatch nx_run_re text))

  unfoldable pub parse_nx_command : Text → Option TaskName
  unfolding nx_command first_group
  parse_nx_command text = nx_command (first_group (engine.find_submatch nx_command_re text))

  unfoldable pub parse_nx_target_line : Text → Option (Text × Text)
  unfolding target_line two_groups
  parse_nx_target_line text = target_line (two_groups (engine.find_submatch nx_target_re text))

  unfoldable pub parse_tool_project : Text → Option (Text × Text)
  unfolding tool_project two_groups
  parse_tool_project text = tool_project (two_groups (engine.find_submatch tool_project_re text))

  -- project, target, kind
  unfoldable pub parse_test_output : Text → Option (Text × Text × Text)
  unfolding first_group clean_token
  parse_test_output text = elim (first_group (engine.find_submatch test_result_re text)) [
    | some project ↦ some (clean_token project, codes "test", codes "test")
    | none ↦
        if engine.matches test_summary_re text || engine.matches test_command_re text
        then some ([], codes "test", codes "test")
        else none
  ]

  unfoldable pub parse_command : Text → Option Text
  unfolding last_command
  parse_command text = last_command (engine.find_all_submatch command_re text)

  abbrev pub filled : Text → Text → Text
  filled old new = if is_empty old then new else old

  unfoldable pub from_command : TaskInfo → Option Text → TaskInfo
  unfolding command_kind
  from_command info none = info
  from_command info (some command) = record info {
    target = filled info.target command;
    kind = filled info.kind (command_kind command);
  }

  unfoldable pub from_target_line : TaskInfo → Text → Option (Text × Text) → TaskInfo
  unfolding from_command parse_command
  from_target_line info text (some (p, t)) = record info {
    project = filled info.project p;
    target = filled info.target t;
  }
  from_target_line info text none = from_command info (parse_command text)

  unfoldable pub from_test_output : TaskInfo → Text → Option (Text × Text × Text) → TaskInfo
  unfolding from_target_line parse_nx_target_line
  from_test_output info text (some (p, t, k)) = record info { project = p; target = t; kind = k }
  from_test_output info text none = from_target_line info text (parse_nx_target_line text)

  unfoldable pub from_tool_project : TaskInfo → Text → Option (Text × Text) → TaskInfo
  unfolding from_test_output parse_test_output
  from_tool_project info text (some (p, t)) = record info { project = p; target = t }
  from_tool_project info text none = from_test_output info text (parse_test_output text)

  unfoldable pub from_nx_command : TaskInfo → Text → Option TaskName → TaskInfo
  unfolding from_tool_project parse_tool_project
  from_nx_command info text (some (p, t, c)) = record info { project = p; target = t; config = c }
  from_nx_command info text none = from_tool_project info text (parse_tool_project text)

  -- The chain of ifs, a parser after the other.
  unfoldable pub from_nx_run : TaskInfo → Text → Option TaskName → TaskInfo
  unfolding from_nx_command parse_nx_command
  from_nx_run info text (some (p, t, c)) = record info { project = p; target = t; config = c }
  from_nx_run info text none = from_nx_command info text (parse_nx_command text)

  unfoldable pub from_text : TaskInfo → Text → TaskInfo
  unfolding from_nx_run parse_nx_run
  from_text info text = from_nx_run info text (parse_nx_run text)

  -- What is filled in behind the parsers.
  unfoldable pub complete : TaskInfo → List Text → TaskInfo
  unfolding project_from_paths kind_from_target kind_from_paths
  complete info paths =
      let kind = filled info.kind (kind_from_target info.target) in
      let path_kind = kind_from_paths paths in
      record info {
        project = filled info.project (project_from_paths paths);
        kind = filled kind path_kind;
        target = filled info.target path_kind;
      }

  unfoldable pub finalize : TaskInfo → Text → List Text → TaskInfo
  unfolding from_text complete strip_ansi
  finalize info terminal paths = complete (from_text info (strip_ansi terminal)) paths
