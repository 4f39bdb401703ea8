-- ===== src/ServiceMonitor/Config.antt =====
-- service_monitor_utils.cpp: `parse_regex_config_file` and `parse_service_monitor_config_directory`.
use atlas_system_agent.Base.{Bool, Option, none, some, List, [], ◌∷◌, ◌++◌, Text, if◌then◌else◌}

-- `std::regex`: construction and `std::regex_search`; `none` is a `std::regex_error`, which the search
-- throws where a match is too complex or runs out of memory.
pub record Regexes : Type 1 where
  pub Regex : Type 0
  pub compile : Text → Option Regex
  pub search_in : Text → Regex → Option Bool

module _ (rx : Regexes) where
  open rx use {Regex, compile}

  -- The loop over the lines: empty ones are skipped, and one that is no regex fails the file.
  unfoldable pub compile_lines : List Text → Option (List Regex)
  compile_lines [] = some []
  compile_lines ([] ∷ lines) = compile_lines lines
  compile_lines ((c ∷ s) ∷ lines) = elim (compile (c ∷ s)) [
    | none ↦ none
    | some r ↦ elim (compile_lines lines) [ none ↦ none | some rs ↦ some (r ∷ rs) ]
  ]

  -- The argument is what `read_file` returns.
  unfoldable pub parse_regex_config_file : Option (List Text) → Option (List Regex)
  unfolding compile_lines
  parse_regex_config_file none = none
  parse_regex_config_file (some []) = none
  parse_regex_config_file (some (line ∷ lines)) = compile_lines (line ∷ lines)

  -- The files of the directory in the order of the iterator: does the name match
  -- `ConfigFileExtPattern`, and what `read_file` returns. A file that fails is passed over.
  unfoldable pub patterns_of_files : List (Bool × Option (List Text)) → List Regex
  unfolding parse_regex_config_file
  patterns_of_files [] = []
  patterns_of_files ((is_config, content) ∷ files) =
      (if is_config
        then elim (parse_regex_config_file content) [ none ↦ [] | some rs ↦ rs ]
        else [])
      ++ patterns_of_files files

  -- `none` where the path is no directory or the iteration throws, and where no pattern is found.
  unfoldable pub parse_service_monitor_config_directory :
      Option (List (Bool × Option (List Text))) → Option (List Regex)
  unfolding patterns_of_files
  parse_service_monitor_config_directory none = none
  parse_service_monitor_config_directory (some files) = elim (patterns_of_files files) [
    | [] ↦ none
    | r ∷ rs ↦ some (r ∷ rs)
  ]
