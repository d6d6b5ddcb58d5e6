-- ===== src/NxArtifact/Patterns.antt =====
-- internal/nxartifact/inspect.go: the regular expressions, and the engine of the package regexp that
-- runs them.
use nx_cache.Common.{Bool, Option, List, Text, codes}

-- FindStringSubmatch, FindAllStringSubmatch and MatchString: the pattern's text, the text it is run
-- on, and the texts of the match and of its groups.
pub record Engine : Type 0 where
  pub find_submatch : Text → Text → Option (List Text)
  pub find_all_submatch : Text → Text → List (List Text)
  pub matches : Text → Text → Bool

abbrev pub nx_run_re : Text
nx_run_re = codes "(?i)(?:^|\\n)\\s*>\\s*nx(?:\\.exe)?\\s+run\\s+(\\S+)"

abbrev pub nx_command_re : Text
nx_command_re =
    codes
      "(?im)^\\s*(?:>\\s*)?(?:[A-Za-z_][A-Za-z0-9_]*=\\S+\\s+)*(?:(?:pnpm|npm|npx|bunx|yarn)\\s+(?:(?:exec|run)\\s+)?)?nx(?:\\.exe)?\\s+(.+)$"

abbrev pub nx_target_re : Text
nx_target_re =
    codes "(?i)(?:running|ran|successfully ran)\\s+target\\s+(\\S+)\\s+for project\\s+(\\S+)"

abbrev pub tool_project_re : Text
tool_project_re =
    codes "(?im)^\\s*running\\s+([A-Za-z0-9._-]+)\\s+for\\s+project:\\s+([A-Za-z0-9_@./-]+)"

abbrev pub test_result_re : Text
test_result_re = codes "(?im)^\\s*(?:pass|fail)\\s+([A-Za-z0-9_@./-]+)\\s+(?:(?:apps|libs)/\\S+)"

abbrev pub test_summary_re : Text
test_summary_re = codes "(?im)^\\s*(?:test suites:|tests:|test files:)"

abbrev pub test_command_re : Text
test_command_re =
    codes
      "(?im)^\\s*>\\s*(?:(?:pnpm|npm|npx|bunx|yarn)\\s+(?:(?:exec|run)\\s+)?)?(?:jest|vitest)(?:\\s|$)"

abbrev pub command_re : Text
command_re = codes "(?m)^\\s*>\\s+(.+?)\\s*$"
