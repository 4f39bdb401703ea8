-- ===== src/Tests/Monitor.antt =====
-- lib/collectors/service_monitor: a host with two services, one of which runs.
use atlas_system_agent.Base.{
  arith, false, ◌≡◌, refl, true, none, some, List, [], ◌∷◌, ◌++◌, Text, codes, All, text_eq,
  text_beq, if◌then◌else◌,
}
use atlas_system_agent.Base.Int.{ℤ, pos}
use atlas_system_agent.Base.Dict.{find}
use atlas_system_agent.Base.Numbers.{stoul}
use atlas_system_agent.Metrics.{whole}
use atlas_system_agent.StrSplit.{str_split, str_split-IsStrSplit}
use atlas_system_agent.ServiceMonitor.Host.{Host}
use atlas_system_agent.ServiceMonitor.State.{ServiceMonitor, new}
use atlas_system_agent.ServiceMonitor.Config.{Regexes}
use atlas_system_agent.ServiceMonitor.ProcStat.{parse_process_times}
use atlas_system_agent.ServiceMonitor.ProcStat.RoundTrip.{
  IsField, spaced, parse_process_times_fields,
}
use atlas_system_agent.ServiceMonitor.Units.{
  is_matched, init_monitored_services, IsInitialised, init_monitored_services-IsInitialised,
}
use atlas_system_agent.ServiceMonitor.Cycle.{update_all, gather_metrics}
use atlas_system_agent.ServiceMonitor.Cycle.Baselines.{contains, next_entry, find-update_all}
use atlas_system_agent.ServiceMonitor.Cycle.Success.{all_healthy, update_all_success}
use atlas_system_agent.ServiceMonitor.Cycle.Valid.{IsValid, new-IsValid, gather_metrics-IsValid}

-- The fields behind the command name of a process with 7 and 5 ticks of CPU time and 42 pages.
abbrev stat_fields : List Text
stat_fields =
    codes "0"
    ∷ codes "0"
    ∷ codes "0"
    ∷ codes "0"
    ∷ codes "0"
    ∷ codes "0"
    ∷ codes "0"
    ∷ codes "0"
    ∷ codes "0"
    ∷ codes "0"
    ∷ codes "7"
    ∷ codes "5"
    ∷ codes "0"
    ∷ codes "0"
    ∷ codes "0"
    ∷ codes "0"
    ∷ codes "0"
    ∷ codes "0"
    ∷ codes "0"
    ∷ codes "0"
    ∷ codes "42"
    ∷ []

-- A command name with a blank and a parenthesis.
abbrev comm : Text
comm = codes "12 (a) b"

IsField-s : IsField (codes "S")
IsField-s = record { no_blank = (refl, tt); no_paren = (refl, tt); kept = refl }

IsField-0 : IsField (codes "0")
IsField-0 = record { no_blank = (refl, tt); no_paren = (refl, tt); kept = refl }

IsField-7 : IsField (codes "7")
IsField-7 = record { no_blank = (refl, tt); no_paren = (refl, tt); kept = refl }

IsField-5 : IsField (codes "5")
IsField-5 = record { no_blank = (refl, tt); no_paren = (refl, tt); kept = refl }

IsField-42 : IsField (codes "42")
IsField-42 = record { no_blank = (refl, (refl, tt)); no_paren = (refl, (refl, tt)); kept = refl }

are_fields : All IsField (codes "S" ∷ stat_fields)
are_fields = (
  IsField-s,
  (
    IsField-0,
    (
      IsField-0,
      (
        IsField-0,
        (
          IsField-0,
          (
            IsField-0,
            (
              IsField-0,
              (
                IsField-0,
                (
                  IsField-0,
                  (
                    IsField-0,
                    (
                      IsField-0,
                      (
                        IsField-7,
                        (
                          IsField-5,
                          (
                            IsField-0,
                            (
                              IsField-0,
                              (
                                IsField-0,
                                (
                                  IsField-0,
                                  (
                                    IsField-0,
                                    (IsField-0, (IsField-0, (IsField-0, (IsField-42, tt)))),
                                  ),
                                ),
                              ),
                            ),
                          ),
                        ),
                      ),
                    ),
                  ),
                ),
              ),
            ),
          ),
        ),
      ),
    ),
  ),
)

parse_process_times_fields_example :
    parse_process_times str_split ((comm ++ b')' ∷ spaced (codes "S" ∷ stat_fields)) ∷ [])
    ≡ some (record { u_time = 7; s_time = 5 })
unfolding stoul
parse_process_times_fields_example =
    parse_process_times_fields str_split str_split-IsStrSplit comm (codes "S") stat_fields []
      {ut = codes "7"} {st = codes "5"} {u = 7} {s = 5} are_fields refl refl refl refl

-- A host where nginx runs with the process 12, and sshd is unknown to systemd.
abbrev host : Host
host = record {
  read_file = λ path.
      if text_beq path (codes "/proc/12/stat")
      then some ((comm ++ b')' ∷ spaced (codes "S" ∷ stat_fields)) ∷ [])
      else none;
  directory_symlinks = λ path. some (true ∷ true ∷ []);
  unit_names = some (codes "nginx" ∷ codes "sshd" ∷ codes "cron" ∷ []);
  service_properties = λ name.
      if text_beq name (codes "nginx")
      then some (record {
        name = name;
        active_state = codes "active";
        sub_state = codes "running";
        main_pid = 12;
        control_group = codes "/system.slice/nginx";
      })
      else none;
  page_size = pos 4096;
  clk_tck = pos 100;
  now = pos 5000;
}

-- A pattern is a text that a name has to be.
abbrev names : Regexes
names = record { Regex = Text; compile = λ t. some t; search_in = λ t r. some (text_beq t r) }

abbrev services : List Text
services = codes "nginx" ∷ codes "sshd" ∷ []

abbrev monitor : ServiceMonitor Text
monitor = new {R = Text} services 1

find-update_all_example :
    find (codes "nginx") (update_all {D = ℤ} str_split host (pos 4096) (pos 100) services []).cpu
    ≡ (if contains services (codes "nginx")
        then next_entry str_split host (pos 100) (codes "nginx") []
        else find (codes "nginx") [])
unfolding text_beq
find-update_all_example =
    find-update_all ℤ str_split host (pos 4096) (pos 100) services (codes "nginx") []
      (refl, (refl, tt))

update_all_success_example :
    (update_all {D = ℤ} str_split host (pos 4096) (pos 100) services []).success
    ≡ all_healthy str_split host services
update_all_success_example = update_all_success ℤ str_split host (pos 4096) (pos 100) services []

init_monitored_services-IsInitialised_example :
    IsInitialised names host monitor (init_monitored_services names host monitor)
unfolding new
init_monitored_services-IsInitialised_example =
    init_monitored_services-IsInitialised names host monitor (omega arith)

-- A search in the name of sshd throws; nginx, in front of it, stays monitored.
abbrev throwing : Regexes
throwing = record {
  Regex = Text;
  compile = λ t. some t;
  search_in = λ t r. if text_beq t (codes "sshd") then none else some true;
}

thrown_init :
    let r = init_monitored_services throwing host (new {R = Text} services 9) in
    (r.0 ≡ false) × (r.1.monitored_services ≡ codes "nginx" ∷ [])
unfolding init_monitored_services is_matched new text_beq
thrown_init = (refl, refl)

gather_metrics-IsValid_example :
    IsValid names (gather_metrics {D = ℤ} str_split host names monitor).cpu
gather_metrics-IsValid_example =
    gather_metrics-IsValid names ℤ str_split host monitor (new-IsValid names services 1)
