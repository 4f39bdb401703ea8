-- ===== src/Ebs/Config/Devices.antt =====
-- ebs.cpp: the devices that the configuration names.
use atlas_system_agent.Base.{
  ◌≡◌, refl, sym, ap, ◌∙◌, ◌⊎◌, Bool, true, false, ◌&&◌, ◌||◌, Option, none, some, List, [], ◌∷◌,
  ◌++◌, Text, if◌then◌else◌, ◌==◌, text_eq, text_beq_iff, arith, Bool-cases, inl, inr, Option-cases,
  ◌≢◌,
}
use atlas_system_agent.Ebs.Config.{
  Host, existing_devices, ebs_parse_regex_config_file, has_device, insert_device, insert_devices,
  devices_of_files, parse_ebs_config_directory,
}

abbrev pub all_exist : Host → List Text → Bool
all_exist host [] = true
all_exist host (d ∷ ds) = host.exists d && all_exist host ds

-- The devices of a file, if it has the name of a configuration, lines, and no device that is missing.
abbrev pub valid_lines : Host → Option (List Text) → List Text
valid_lines host none = []
valid_lines host (some ds) = if all_exist host ds then ds else []

abbrev pub devices_of : Host → Text → List Text
devices_of host file = if host.is_config file then valid_lines host (host.read_file file) else []

-- Does one of the files name the device?
abbrev pub any_names : Host → List Text → Text → Bool
any_names host [] d = false
any_names host (file ∷ files) d = has_device d (devices_of host file) || any_names host files d

existing_devices-all_exist :
    (host : Host) (ds : List Text)
    → existing_devices host ds ≡ (if all_exist host ds then some ds else none)
unfolding existing_devices
existing_devices-all_exist host [] = refl
existing_devices-all_exist host (d ∷ ds) = ground (arith, existing_devices-all_exist host ds)

has_device-append :
    (d e : Text) (set : List Text) → has_device d (set ++ e ∷ []) ≡ (has_device d set || (e == d))
has_device-append d e [] = ground arith
has_device-append d e (x ∷ set) = ground (arith, has_device-append d e set)

has_device-insert_device :
    (d e : Text) (set : List Text)
    → has_device d (insert_device e set) ≡ (has_device d set || (e == d))
unfolding insert_device
has_device-insert_device d e set = elim (Bool-cases (has_device e set)) [
  | inr new ↦ rw new (has_device-append d e set)
  | inl old ↦ rw old (elim (Bool-cases (e == d)) [
    | inr other ↦ rw other (ground arith)
    | inl same ↦
        let held : has_device d set ≡ true =
          ap (λ x. has_device x set) (sym ((text_beq_iff e d).0 same)) ∙ old in
        rw (same, held) refl
  ])
]

has_device-insert_devices :
    (d : Text) (ds set : List Text)
    → has_device d (insert_devices ds set) ≡ (has_device d set || has_device d ds)
unfolding insert_devices
has_device-insert_devices d [] set = ground arith
has_device-insert_devices d (e ∷ ds) set =
    has_device-insert_devices d ds (insert_device e set)
    ∙ ap (λ b. b || has_device d ds) (has_device-insert_device d e set)
    ∙ ground arith

-- The set that one more file leaves.
abbrev grown : Option (List Text) → List Text → List Text
grown none set = set
grown (some ds) set = insert_devices ds set

ebs_parse-devices :
    (host : Host) (file d : Text) (set : List Text)
    → has_device d (grown (ebs_parse_regex_config_file host file) set)
      ≡ (has_device d set || has_device d (valid_lines host (host.read_file file)))
unfolding ebs_parse_regex_config_file
ebs_parse-devices host file d set = of_lines (host.read_file file) refl
  where
    of_lines :
        (o : Option (List Text))
        → host.read_file file ≡ o
        → has_device d (grown (ebs_parse_regex_config_file host file) set)
          ≡ (has_device d set || has_device d (valid_lines host (host.read_file file)))
    of_lines none e = rw (e, ebs_parse_regex_config_file) (ground arith)
    of_lines (some []) e = rw (e, ebs_parse_regex_config_file) (ground arith)
    of_lines (some (x ∷ xs)) e =
        rw (e, ebs_parse_regex_config_file)
          (rw (existing_devices-all_exist host (x ∷ xs)) (valid (all_exist host (x ∷ xs))))
      where
        valid :
            (b : Bool)
            → has_device d (grown (if b then some (x ∷ xs) else none) set)
              ≡ (has_device d set || has_device d (if b then x ∷ xs else []))
        valid true = has_device-insert_devices d (x ∷ xs) set
        valid false = ground arith

devices_of_files-next :
    (host : Host) (file : Text) (files set : List Text)
    → host.is_config file ≡ true
    → devices_of_files host (file ∷ files) set
      ≡ devices_of_files host files (grown (ebs_parse_regex_config_file host file) set)
unfolding devices_of_files
devices_of_files-next host file files set h =
    rw h (of_parse (ebs_parse_regex_config_file host file))
  where
    of_parse :
        (o : Option (List Text))
        → (elim o [
          | none ↦ devices_of_files host files set
          | some ds ↦ devices_of_files host files (insert_devices ds set)
        ])
          ≡ devices_of_files host files (grown o set)
    of_parse none = refl
    of_parse (some ds) = refl

or_assoc : (a b c : Bool) → (a || b || c) ≡ (a || (b || c))
or_assoc true b c = refl
or_assoc false b c = refl

has_device-devices_of_files :
    (host : Host) (files : List Text) (d : Text) (set : List Text)
    → has_device d (devices_of_files host files set) ≡ (has_device d set || any_names host files d)
unfolding devices_of_files
has_device-devices_of_files host [] d set = ground arith
has_device-devices_of_files host (file ∷ files) d set = elim (Bool-cases (host.is_config file)) [
  | inr other ↦ rw other (has_device-devices_of_files host files d set)
  | inl config ↦
      ap (has_device d) (devices_of_files-next host file files set config)
      ∙ has_device-devices_of_files host files d (grown (ebs_parse_regex_config_file host file) set)
      ∙ ap (λ b. b || any_names host files d) (ebs_parse-devices host file d set)
      ∙ rw config (or_assoc (has_device d set) _ (any_names host files d))
]

-- What the directory gives: a set that has exactly the devices that a valid file names, and is not
-- empty; where it gives none, the path is no directory, the iteration throws, or no valid file names
-- a device.
abbrev pub Configured : Host → Text → Option (List Text) → Type 0
Configured host path (some ds) =
    (host.exists path ≡ true)
    × (host.is_directory path ≡ true)
    × (ds ≢ [])
    × ((files : List Text) × (host.files path ≡ some files)
        × ((d : Text) → has_device d ds ≡ any_names host files d))
Configured host path none =
    ((host.exists path && host.is_directory path) ≡ false)
    ⊎ ((host.files path ≡ none)
        ⊎ ((files : List Text) × (host.files path ≡ some files)
            × ((d : Text) → any_names host files d ≡ false)))

named :
    (host : Host) (files : List Text) (d : Text) (ds : List Text)
    → devices_of_files host files [] ≡ ds
    → has_device d ds ≡ any_names host files d
named host files d ds e = ap (has_device d) (sym e) ∙ has_device-devices_of_files host files d []

found :
    (host : Host) (path : Text) (files ds : List Text)
    → devices_of_files host files [] ≡ ds
    → host.files path ≡ some files
    → (host.exists path && host.is_directory path) ≡ true
    → Configured host path (elim ds [ [] ↦ none | d ∷ ds ↦ some (d ∷ ds) ])
found host path files [] e listed directory =
    inr (inr (files, listed, λ d. sym (named host files d [] e)))
found host path files (x ∷ ds) e listed directory = (
  ground arith,
  ground arith,
  λ h. absurd (ground arith),
  (files, listed, λ d. named host files d (x ∷ ds) e),
)

-- The devices that are monitored are exactly those that a valid file of the directory names: a file
-- with the name of a configuration that can be read and names no device that is missing. The
-- collector is disabled exactly where there is no directory, its iteration throws, or there is no such
-- device.
pub parse_ebs_config_directory-Configured :
    (host : Host) (path : Text) → Configured host path (parse_ebs_config_directory host path)
unfolding parse_ebs_config_directory
parse_ebs_config_directory-Configured host path =
    elim (Bool-cases (host.exists path && host.is_directory path)) [
      | inr no_directory ↦ rw no_directory (inl no_directory)
      | inl directory ↦ elim (Option-cases (host.files path)) [
        | inl throws ↦ rw (directory, throws) (inr (inl throws))
        | inr (files, listed) ↦
            rw (directory, listed) (found host path files _ refl listed directory)
      ]
    ]
