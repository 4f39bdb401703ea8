-- ===== src/Agent/Loop.antt =====
-- AtlasAgent/src/system-agent.cpp: `collect_system_metrics`, from the first slow metrics on. The
-- clock and the signal handler are parameters: a turn of the loop is what they gave it. Times are
-- in nanoseconds.
pub mod Rate
use atlas_system_agent.Base.{
  ℕ, ◌+◌, ◌*◌, ◌≤◌, Bool, true, false, List, [], ◌∷◌, ◌++◌, leb, if◌then◌else◌,
}
use atlas_system_agent.Base.Int.{ℤ, sub_ℕ}
use atlas_system_agent.Agent.Terminator.{wait_for}

-- The calls of the collectors.
pub data Call : Type 0 where
  cpu_stats : Bool → Bool → Call
  cpu_freq_stats : Call
  aws_collect disk_stats ethtool_collect ntp_collect pressure_stall_collect proc_collect_system :
      Call
  perfspect_collect perf_metrics_collect gpu_collect gpu_amd_collect gpu_dcgm_collect : Call
  ebs_collect service_monitor_collect : Call

-- The clock at the top of the turn and before the wait, and the flag when the wait ends.
pub record Turn : Type 0 where
  pub start : ℕ
  pub before_wait : ℕ
  pub terminate : Bool

pub record Schedule : Type 0 where
  pub next_run : ℕ
  pub next_five_second_run : ℕ
  pub next_sixty_second_run : ℕ

abbrev pub seconds : ℕ → ℕ
seconds n = n * 1000000000

unfoldable pub first_schedule : ℕ → Schedule
first_schedule now = record {
  next_run = now;
  next_five_second_run = now + seconds 5;
  next_sixty_second_run = now + seconds 60;
}

abbrev pub five_enabled : Turn → Schedule → Bool
five_enabled t s = leb s.next_five_second_run t.start

abbrev pub sixty_enabled : Turn → Schedule → Bool
sixty_enabled t s = leb s.next_sixty_second_run t.start

abbrev slow_calls : List Call
slow_calls =
    aws_collect ∷ disk_stats ∷ ethtool_collect ∷ ntp_collect ∷ pressure_stall_collect
    ∷ proc_collect_system ∷ []

-- The collectors that a turn calls, in order.
unfoldable pub calls : Turn → Schedule → List Call
calls t s =
    cpu_stats (five_enabled t s) (sixty_enabled t s)
    ∷ cpu_freq_stats
    ∷ ((if five_enabled t s then perfspect_collect ∷ [] else [])
        ++ (if sixty_enabled t s
            then slow_calls
              ++ perf_metrics_collect ∷ gpu_collect ∷ gpu_amd_collect ∷ gpu_dcgm_collect
                ∷ ebs_collect ∷ service_monitor_collect ∷ []
            else []))

unfoldable pub advance : Turn → Schedule → Schedule
advance t s = record {
  next_run = s.next_run + seconds 1;
  next_five_second_run =
      if five_enabled t s then s.next_five_second_run + seconds 5 else s.next_five_second_run;
  next_sixty_second_run =
      if sixty_enabled t s then s.next_sixty_second_run + seconds 60 else s.next_sixty_second_run;
}

-- The wait at the end of a turn: does the loop go on?
unfoldable pub goes_on : Turn → Schedule → Bool
unfolding advance wait_for
goes_on t s = wait_for (sub_ℕ (advance t s).next_run t.before_wait) t.terminate

-- The calls of each turn that is run, and the schedule after them.
unfoldable pub run : List Turn → Schedule → List (List Call) × Schedule
unfolding calls advance goes_on
run [] s = ([], s)
run (t ∷ ts) s =
    let next = advance t s in
    let rest = run ts next in
    if goes_on t s then (calls t s ∷ rest.0, rest.1) else (calls t s ∷ [], next)
