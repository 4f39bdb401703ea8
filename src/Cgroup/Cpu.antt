-- ===== src/Cgroup/Cpu.antt =====
-- cgroup.cpp: `CpuStats` and what it calls. The `static` variables are the state, the files and the
-- environment are read in front of it, and `absl::Time` is a parameter. The functions that look up a
-- key are `noexcept`. Differences of counters stay inside `int64_t`.
pub mod Returns
use atlas_system_agent.Base.{
  ℕ, Bool, true, false, Option, none, some, List, [], ◌∷◌, ◌++◌, Text, String, codes, get_elem?,
  if◌then◌else◌, text_eq,
}
use atlas_system_agent.Base.Dict.{find}
use atlas_system_agent.Base.Int.{ℤ, pos, negsuc, ◌-ℤ◌, leb_ℤ}
use atlas_system_agent.Base.Outcome.{Outcome, ok, err, terminated, undefined, ◌>>=◌}
use atlas_system_agent.Metrics.{
  Double, of_ℕ, metric, Metric, Kind, counter, gauge, max_gauge, monotonic_counter, Tags,
}

-- What the code uses of `absl::Time`: a default value is the Unix epoch.
pub record Times (D : Type 0) : Type 1 where
  pub Time : Type 0
  pub unix_epoch : Time
  pub is_unix_epoch : Time → Bool
  pub seconds_before : Time → ℕ → Time
  pub seconds_between : Time → Time → D

abbrev pub KeyValues : Type 0
KeyValues = List (Text × ℤ)

-- `stats.at(key)`
unfoldable pub at : KeyValues → Text → Outcome ℤ
at stats key = elim (find key stats) [ none ↦ err terminated | some n ↦ ok n ]

-- What is read: cpu.stat, cpu.weight, the numbers of cpu.max, and `TITUS_NUM_CPU`.
pub record Files (D : Type 0) : Type 0 where
  pub cpu_stat : KeyValues
  pub cpu_weight : ℤ
  pub cpu_max : List ℤ
  pub num_cpu : Option D

-- The `static` variables, in the order of the functions; -1 stands for no reading.
pub record State (T : Type 0) : Type 0 where
  pub prev_throttled_time : ℤ
  pub prev_proc_time : ℤ
  pub prev_sys_usage : ℤ
  pub prev_user_usage : ℤ
  pub capacity_updated : T
  pub utilization_updated : T
  pub utilization_system : ℤ
  pub utilization_user : ℤ
  pub peak_updated : T
  pub peak_system : ℤ
  pub peak_user : ℤ

module _ {D : Type 0} ⦃fp : Double D⦄ (times : Times D) where
  open times use {Time, unix_epoch, is_unix_epoch, seconds_before, seconds_between}

  unfoldable pub initial : State Time
  initial = record {
    prev_throttled_time = negsuc 0;
    prev_proc_time = negsuc 0;
    prev_sys_usage = negsuc 0;
    prev_user_usage = negsuc 0;
    capacity_updated = unix_epoch;
    utilization_updated = unix_epoch;
    utilization_system = negsuc 0;
    utilization_user = negsuc 0;
    peak_updated = unix_epoch;
    peak_system = negsuc 0;
    peak_user = negsuc 0;
  }

  abbrev pub Step : Type 0
  Step = Outcome (State Time × List (Metric D))

  -- The seconds since the previous reading in microseconds, if there was one.
  unfoldable pub since : ℤ → ℤ → (D → Metric D) → List (Metric D)
  since prev cur publish =
      if leb_ℤ (pos 0) prev
      then publish (fp.div (fp.of_ℤ (cur -ℤ prev)) (of_ℕ 1000000)) ∷ []
      else []

  unfoldable pub cpu_throttle : KeyValues → State Time → Step
  unfolding at since
  cpu_throttle stats s = do
    cur_throttled_time ← at stats (codes "throttled_usec")
    throttled ← at stats (codes "nr_throttled")
    ok (
      record s { prev_throttled_time = cur_throttled_time },
      since s.prev_throttled_time cur_throttled_time (metric counter "cgroup.cpu.throttledTime" [])
          ++ metric monotonic_counter "cgroup.cpu.numThrottled" [] (fp.of_ℤ throttled) ∷ [],
    )

  unfoldable pub cpu_time : KeyValues → State Time → Step
  unfolding at since
  cpu_time stats s = do
    usage ← at stats (codes "usage_usec")
    system ← at stats (codes "system_usec")
    user ← at stats (codes "user_usec")
    ok (
      record s { prev_proc_time = usage; prev_sys_usage = system; prev_user_usage = user },
      since s.prev_proc_time usage (metric counter "cgroup.cpu.processingTime" [])
          ++ (since s.prev_sys_usage system
                (metric counter "cgroup.cpu.usageTime" (("id", codes "system") ∷ []))
              ++ since s.prev_user_usage user
                  (metric counter "cgroup.cpu.usageTime" (("id", codes "user") ∷ []))),
    )

  -- `GetAvailCpuTime`: `cpu_max[1]` of a shorter list is not defined.
  unfoldable pub get_avail_cpu_time : List ℤ → D → D → Outcome D
  get_avail_cpu_time cpu_max delta_t cpu_count = elim (get_elem? cpu_max 1) [
    | none ↦ err undefined
    | some cfs_period ↦
        ok (fp.mul (fp.div delta_t (fp.of_ℤ cfs_period)) (fp.mul (fp.of_ℤ cfs_period) cpu_count))
  ]

  -- `GetNumCpu`
  unfoldable pub get_num_cpu : Option D → D
  get_num_cpu none = of_ℕ 0
  get_num_cpu (some n) = n

  -- `last_updated`, or the interval before now at the first call.
  abbrev last_or : Time → ℕ → Time → Time
  last_or now interval last = if is_unix_epoch last then seconds_before now interval else last

  unfoldable pub cpu_processing_capacity : Time → D → ℕ → State Time → State Time × List (Metric D)
  cpu_processing_capacity now cpu_count interval s = (
    record s { capacity_updated = now },
    metric counter "cgroup.cpu.processingCapacity" []
          (fp.mul (seconds_between now (last_or now interval s.capacity_updated)) cpu_count)
        ∷ [],
  )

  abbrev used_percent : Kind → String → Text → D → D → Metric D
  used_percent kind name id avail secs =
      metric kind name (("id", id) ∷ []) (fp.mul (fp.div secs avail) (of_ℕ 100))

  unfoldable pub cpu_utilization : Time → D → Files D → ℕ → State Time → Step
  unfolding at since get_avail_cpu_time
  cpu_utilization now cpu_count files interval s = do
    avail ←
        get_avail_cpu_time files.cpu_max
          (seconds_between now (last_or now interval s.utilization_updated)) cpu_count
    system ← at files.cpu_stat (codes "system_usec")
    user ← at files.cpu_stat (codes "user_usec")
    ok (
      record s { utilization_updated = now; utilization_system = system; utilization_user = user },
      (if leb_ℤ (pos 0) files.cpu_weight
            then metric gauge "cgroup.cpu.weight" [] (fp.of_ℤ files.cpu_weight) ∷ []
            else [])
          ++ (metric gauge "sys.cpu.numProcessors" [] cpu_count
              ∷ metric gauge "titus.cpu.requested" [] cpu_count
              ∷ [])
          ++ (since s.utilization_system system
                (used_percent gauge "sys.cpu.utilization" (codes "system") avail)
              ++ since s.utilization_user user
                  (used_percent gauge "sys.cpu.utilization" (codes "user") avail)),
    )

  unfoldable pub cpu_peak_utilization : Time → D → Files D → State Time → Step
  unfolding at since get_avail_cpu_time
  cpu_peak_utilization now cpu_count files s = do
    avail ← get_avail_cpu_time files.cpu_max (seconds_between now s.peak_updated) cpu_count
    system ← at files.cpu_stat (codes "system_usec")
    user ← at files.cpu_stat (codes "user_usec")
    ok (
      record s { peak_updated = now; peak_system = system; peak_user = user },
      since s.peak_system system
            (used_percent max_gauge "sys.cpu.peakUtilization" (codes "system") avail)
          ++ since s.peak_user user
              (used_percent max_gauge "sys.cpu.peakUtilization" (codes "user") avail),
    )

  -- One step after the other, with what both publish.
  infixl 5 ◌then_do◌
  abbrev ◌then_do◌ : Step → (State Time → Step) → Step
  first then_do next = do (s, metrics) ← first; (s₂, more) ← next s; ok (s₂, metrics ++ more)

  -- `CpuStats`, with the clock readings of the three calls.
  unfoldable pub cpu_stats : Bool → Bool → (Time × Time × Time) → Files D → State Time → Step
  unfolding cpu_throttle cpu_time cpu_processing_capacity cpu_utilization cpu_peak_utilization
      get_num_cpu
  cpu_stats five sixty (now₁, now₂, now₃) files s =
      sixty_step sixty s then_do five_step five then_do cpu_peak_utilization now₃ cpu_count files
    where
      cpu_count : D
      cpu_count = get_num_cpu files.num_cpu

      sixty_step : Bool → State Time → Step
      sixty_step true t =
          cpu_throttle files.cpu_stat t then_do cpu_utilization now₁ cpu_count files 60
      sixty_step false t = ok (t, [])

      five_step : Bool → State Time → Step
      five_step true t =
          cpu_time files.cpu_stat t then_do (λ u. ok (cpu_processing_capacity now₂ cpu_count 5 u))
      five_step false t = ok (t, [])
