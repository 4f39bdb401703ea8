-- ===== src/Cgroup/Cpu/Returns.antt =====
-- cgroup.cpp: when `CpuStats` returns, and what it keeps for the next call.
use atlas_system_agent.Base.{
  ◌≡◌, refl, Bool, true, false, some, List, [], Text, String, codes, get_elem?, text_eq,
}
use atlas_system_agent.Base.Dict.{find}
use atlas_system_agent.Base.Int.{ℤ}
use atlas_system_agent.Base.Outcome.{Outcome, ok, err}
use atlas_system_agent.Metrics.{Double, Metric}
use atlas_system_agent.Cgroup.Cpu.{
  Times, Files, State, at, cpu_stats, cpu_throttle, cpu_time, cpu_processing_capacity,
  cpu_utilization, cpu_peak_utilization, get_avail_cpu_time,
}

-- The counters of a cpu.stat file.
pub record Counters : Type 0 where
  pub usage : ℤ
  pub system : ℤ
  pub user : ℤ
  pub nr_throttled : ℤ
  pub throttled : ℤ

-- The file holds these counters.
pub record Holds (stats : List (Text × ℤ)) (c : Counters) : Type 0 where
  pub usage_found : find (codes "usage_usec") stats ≡ some c.usage
  pub system_found : find (codes "system_usec") stats ≡ some c.system
  pub user_found : find (codes "user_usec") stats ≡ some c.user
  pub nr_throttled_found : find (codes "nr_throttled") stats ≡ some c.nr_throttled
  pub throttled_found : find (codes "throttled_usec") stats ≡ some c.throttled

at_ok :
    (stats : List (Text × ℤ)) (key : String) {n : ℤ}
    → find (codes key) stats ≡ some n
    → at stats (codes key) ≡ ok n
unfolding at
at_ok stats key h = rw (h, at) refl

module _ (D : Type 0) ⦃fp : Double D⦄ (times : Times D) where
  open times use {Time}

  -- The `static` variables after the sixty second part, the five second part, and the peak part.
  abbrev after_sixty : Bool → Time → Counters → State Time → State Time
  after_sixty false now c s = s
  after_sixty true now c s = record s {
    prev_throttled_time = c.throttled;
    utilization_updated = now;
    utilization_system = c.system;
    utilization_user = c.user;
  }

  abbrev after_five : Bool → Time → Counters → State Time → State Time
  after_five false now c s = s
  after_five true now c s = record s {
    prev_proc_time = c.usage;
    prev_sys_usage = c.system;
    prev_user_usage = c.user;
    capacity_updated = now;
  }

  abbrev pub after : Bool → Bool → (Time × Time × Time) → Counters → State Time → State Time
  after five sixty (now₁, now₂, now₃) c s =
      record (after_five five now₂ c (after_sixty sixty now₁ c s)) {
        peak_updated = now₃;
        peak_system = c.system;
        peak_user = c.user;
      }

  -- The metrics of a call that returns.
  abbrev published : Outcome (State Time × List (Metric D)) → List (Metric D)
  published (ok (_, metrics)) = metrics
  published (err _) = []

  -- Where cpu.stat holds the five counters that are looked up and cpu.max has two numbers, `CpuStats`
  -- returns whatever the flags are, and keeps the counters read for exactly the parts that ran.
  pub cpu_stats_keeps :
      (five sixty : Bool) (nows : Time × Time × Time) (files : Files D) (s : State Time)
      (c : Counters) (period : ℤ)
      → Holds files.cpu_stat c
      → get_elem? files.cpu_max 1 ≡ some period
      → (metrics : List (Metric D)) × (cpu_stats times five sixty nows files s
          ≡ ok (after five sixty nows c s, metrics))
  unfolding cpu_stats
  cpu_stats_keeps true true nows files s c period h p = (
    published (cpu_stats times true true nows files s),
    rw
        (
          at_ok files.cpu_stat "usage_usec" h.usage_found,
          at_ok files.cpu_stat "system_usec" h.system_found,
          at_ok files.cpu_stat "user_usec" h.user_found,
          at_ok files.cpu_stat "nr_throttled" h.nr_throttled_found,
          at_ok files.cpu_stat "throttled_usec" h.throttled_found,
          p,
          cpu_stats,
          cpu_throttle,
          cpu_time,
          cpu_processing_capacity,
          cpu_utilization,
          cpu_peak_utilization,
          get_avail_cpu_time,
        )
        refl,
  )
  cpu_stats_keeps true false nows files s c period h p = (
    published (cpu_stats times true false nows files s),
    rw
        (
          at_ok files.cpu_stat "usage_usec" h.usage_found,
          at_ok files.cpu_stat "system_usec" h.system_found,
          at_ok files.cpu_stat "user_usec" h.user_found,
          p,
          cpu_stats,
          cpu_throttle,
          cpu_time,
          cpu_processing_capacity,
          cpu_utilization,
          cpu_peak_utilization,
          get_avail_cpu_time,
        )
        refl,
  )
  cpu_stats_keeps false true nows files s c period h p = (
    published (cpu_stats times false true nows files s),
    rw
        (
          at_ok files.cpu_stat "system_usec" h.system_found,
          at_ok files.cpu_stat "user_usec" h.user_found,
          at_ok files.cpu_stat "nr_throttled" h.nr_throttled_found,
          at_ok files.cpu_stat "throttled_usec" h.throttled_found,
          p,
          cpu_stats,
          cpu_throttle,
          cpu_time,
          cpu_processing_capacity,
          cpu_utilization,
          cpu_peak_utilization,
          get_avail_cpu_time,
        )
        refl,
  )
  cpu_stats_keeps false false nows files s c period h p = (
    published (cpu_stats times false false nows files s),
    rw
        (
          at_ok files.cpu_stat "system_usec" h.system_found,
          at_ok files.cpu_stat "user_usec" h.user_found,
          p,
          cpu_stats,
          cpu_throttle,
          cpu_time,
          cpu_processing_capacity,
          cpu_utilization,
          cpu_peak_utilization,
          get_avail_cpu_time,
        )
        refl,
  )
