-- ===== src/Agent/Options.antt =====
-- AtlasAgent/src/atlas-agent.cpp: `parse_options`, the signals and the tags of `main`. What getopt
-- gives is a list of option letters with their arguments.
pub mod Last
use atlas_system_agent.Base.{
  ℕ, ◌+◌, Bool, true, false, Option, none, some, List, [], ◌∷◌, Text, String, codes, eqb, leb, ltb,
  if◌then◌else◌, length, get_elem?, drop, text_eq,
}
use atlas_system_agent.Base.Dict.{assign}
use atlas_system_agent.Base.Int.{ℤ, pos, leb_ℤ, pos_part}
use atlas_system_agent.Base.Numbers.{stoi}
use atlas_system_agent.Agent.Terminator.{kill}
use atlas_system_agent.Agent.Container.{Flavor, titus, k8s}
use atlas_system_agent.StrSplit.{StrSplit}
use atlas_system_agent.Util.{TagMap, parse_tags}

-- 0 monitored services stand for the default number.
pub record AgentOptions : Type 0 where
  pub network_tags : TagMap
  pub cfg_file : Text
  pub verbose : Bool
  pub max_monitored_services : ℕ

abbrev pub default_cfg_file : Text
default_cfg_file = codes "/etc/default/atlas-agent.json"

-- An option of the string "c:vt:s:"; the last stands for '?' and every other letter.
pub data GetOpt : Type 0 where
  opt_c opt_t opt_s : Text → GetOpt
  opt_v opt_unknown : GetOpt

-- The case of -s, with the number that `stoi` reads. `usage` ends the process.
unfoldable pub set_service_limit : Option ℤ → AgentOptions → Option AgentOptions
set_service_limit none o = none
set_service_limit (some value) o =
    let limited : AgentOptions = record {
      network_tags = o.network_tags;
      cfg_file = o.cfg_file;
      verbose = o.verbose;
      max_monitored_services = pos_part value;
    } in
    if leb_ℤ value (pos 0) then none else some limited

-- The body of the loop. `usage` ends the process, also for an exception: `none`.
unfoldable pub set_option : StrSplit → GetOpt → AgentOptions → Option AgentOptions
unfolding parse_tags stoi set_service_limit
set_option split (opt_c optarg) o = some (record {
  network_tags = o.network_tags;
  cfg_file = optarg;
  verbose = o.verbose;
  max_monitored_services = o.max_monitored_services;
})
set_option split opt_v o = some (record {
  network_tags = o.network_tags;
  cfg_file = o.cfg_file;
  verbose = true;
  max_monitored_services = o.max_monitored_services;
})
set_option split (opt_t optarg) o = some (record {
  network_tags = parse_tags split optarg;
  cfg_file = o.cfg_file;
  verbose = o.verbose;
  max_monitored_services = o.max_monitored_services;
})
set_option split (opt_s optarg) o = set_service_limit (stoi optarg) o
set_option split opt_unknown o = none

unfoldable pub set_options : StrSplit → List GetOpt → AgentOptions → Option AgentOptions
unfolding set_option
set_options split [] o = some o
set_options split (g ∷ gs) o = elim (set_option split g o) [
  | none ↦ none
  | some next ↦ set_options split gs next
]

-- The test behind the loop.
abbrev pub with_cfg_file : AgentOptions → AgentOptions
with_cfg_file o = record {
  network_tags = o.network_tags;
  cfg_file = elim o.cfg_file [ [] ↦ default_cfg_file | c ∷ s ↦ c ∷ s ];
  verbose = o.verbose;
  max_monitored_services = o.max_monitored_services;
}

-- Is VERBOSE_AGENT set, and the options that getopt finds.
unfoldable pub parse_options : StrSplit → Bool → List GetOpt → Option AgentOptions
unfolding set_options
parse_options split verbose_agent gs =
    let start : AgentOptions = record {
      network_tags = [];
      cfg_file = [];
      verbose = verbose_agent;
      max_monitored_services = 0;
    } in
    elim (set_options split gs start) [ none ↦ none | some o ↦ some (with_cfg_file o) ]

-- The handler's call; the signal only chooses the name that is logged.
unfoldable pub handle_signal : ℕ → Bool → Bool
unfolding kill
handle_signal signal terminate = kill terminate

-- AGENT_FLAVOR, with the system agent as the third.
pub data Build : Type 0 where
  container : Flavor → Build
  system : Build

abbrev default_process : Build → Text
default_process (container titus) = codes "atlas-titus-agent"
default_process (container k8s) = codes "atlas-k8s-agent"
default_process system = codes "atlas-system-agent"

-- `argv` behind the options: the second argument names the process.
unfoldable pub process_name : Build → ℕ → List Text → Text
process_name build idx argv = elim (get_elem? (drop idx argv) 1) [
  | none ↦ default_process build
  | some name ↦ name
]

-- The common tags of the registry; TITUS_HOST_EC2_INSTANCE_ID is read in the build for Titus.
unfoldable pub common_tags : Build → Text → Option Text → TagMap
common_tags (container titus) process (some (c ∷ host)) =
    assign (codes "titus.host") (c ∷ host) ((codes "xatlas.process", process) ∷ [])
common_tags build process titus_host = (codes "xatlas.process", process) ∷ []
