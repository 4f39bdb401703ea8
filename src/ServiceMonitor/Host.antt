-- ===== src/ServiceMonitor/Host.antt =====
-- What the service monitor reads of the machine, at one moment: files, directories, systemd over
-- D-Bus, `sysconf`, the clock. A `none` is the error value or the exception of the call.
use atlas_system_agent.Base.{ℕ, Option, List, Text, Bool, false, [], ◌∷◌, ◌++◌, eqb, if◌then◌else◌}
use atlas_system_agent.Base.Int.{ℤ}

-- lib/collectors/service_monitor/src/service_monitor_utils.h
pub record ServiceProperties : Type 0 where
  pub name : Text
  pub active_state : Text
  pub sub_state : Text
  pub main_pid : ℕ
  pub control_group : Text

pub record Host : Type 0 where
  -- The lines of a file that can be opened.
  pub read_file : Text → Option (List Text)
  -- For each entry of a directory, whether it is a symbolic link.
  pub directory_symlinks : Text → Option (List Bool)
  -- The names of all units of systemd.
  pub unit_names : Option (List Text)
  pub service_properties : Text → Option ServiceProperties
  pub page_size : ℤ
  pub clk_tck : ℤ
  -- `steady_clock::now()`, in nanoseconds
  pub now : ℤ

ends_with_slash : Text → Bool
ends_with_slash [] = false
ends_with_slash (c ∷ []) = eqb c b'/'
ends_with_slash (c ∷ d ∷ s) = ends_with_slash (d ∷ s)

abbrev starts_with_slash : Text → Bool
starts_with_slash [] = false
starts_with_slash (c ∷ _) = eqb c b'/'

-- `operator/` of `std::filesystem::path`: an absolute right side replaces the left one.
infixl 70 ◌⁄◌
unfoldable pub ◌⁄◌ : Text → Text → Text
unfolding ends_with_slash
[] ⁄ q = q
(c ∷ p) ⁄ q =
    if starts_with_slash q
    then q
    else if ends_with_slash (c ∷ p)
    then (c ∷ p) ++ q
    else (c ∷ p) ++ (b'/' ∷ q)

-- Line 305 of service_monitor_utils.cpp: `cgroupPath` without one leading '/'.
abbrev pub without_leading_slash : Text → Text
without_leading_slash [] = []
without_leading_slash (c ∷ s) = if eqb c b'/' then s else c ∷ s
