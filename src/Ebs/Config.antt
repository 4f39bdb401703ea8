-- ===== src/Ebs/Config.antt =====
-- ebs.cpp: `ebs_parse_regex_config_file`, `parse_ebs_config_directory` and `EBSCollector::Create`.
pub mod Devices
use atlas_system_agent.Base.{
  Bool, true, false, not, ◌&&◌, ◌||◌, Option, none, some, List, [], ◌∷◌, ◌++◌, Text, if◌then◌else◌,
  ◌==◌, text_eq,
}

-- The file system and the pattern of the file names. A file that cannot be read is `none`; a directory
-- lists its files, with those below it, or the iteration throws, at its start or on its way, which is
-- `none`: what was read before is lost then. An `exists`, `is_directory` or read that throws ends like
-- one that fails, in the handlers of the two functions.
pub record Host : Type 0 where
  pub read_file : Text → Option (List Text)
  pub exists : Text → Bool
  pub is_directory : Text → Bool
  pub files : Text → Option (List Text)
  pub is_config : Text → Bool

-- The loop over the lines, which gives up at the first device that is not there.
unfoldable pub existing_devices : Host → List Text → Option (List Text)
existing_devices host [] = some []
existing_devices host (device ∷ devices) =
    let rest = existing_devices host devices in
    if host.exists device then elim rest [ none ↦ none | some ds ↦ some (device ∷ ds) ] else none

unfoldable pub ebs_parse_regex_config_file : Host → Text → Option (List Text)
unfolding existing_devices
ebs_parse_regex_config_file host path = elim (host.read_file path) [
  | none ↦ none
  | some [] ↦ none
  | some (d ∷ ds) ↦ existing_devices host (d ∷ ds)
]

-- A set of devices: a list without repetitions.
abbrev pub has_device : Text → List Text → Bool
has_device d [] = false
has_device d (e ∷ es) = e == d || has_device d es

unfoldable pub insert_device : Text → List Text → List Text
insert_device d set = if has_device d set then set else set ++ d ∷ []

unfoldable pub insert_devices : List Text → List Text → List Text
unfolding insert_device
insert_devices [] set = set
insert_devices (d ∷ ds) set = insert_devices ds (insert_device d set)

unfoldable pub devices_of_files : Host → List Text → List Text → List Text
unfolding ebs_parse_regex_config_file insert_devices
devices_of_files host [] set = set
devices_of_files host (file ∷ files) set =
    let skipped = devices_of_files host files set in
    let read : List Text = elim (ebs_parse_regex_config_file host file) [
      | none ↦ skipped
      | some ds ↦ devices_of_files host files (insert_devices ds set)
    ] in
    if host.is_config file then read else skipped

-- The handler of the function turns an exception of the iteration into `std::nullopt`.
unfoldable pub parse_ebs_config_directory : Host → Text → Option (List Text)
unfolding devices_of_files
parse_ebs_config_directory host path =
    let devices : Option (List Text) = elim (host.files path) [
      | none ↦ none
      | some files ↦ elim (devices_of_files host files []) [ [] ↦ none | d ∷ ds ↦ some (d ∷ ds) ]
    ] in
    if host.exists path && host.is_directory path then devices else none
