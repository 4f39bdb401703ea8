-- ===== src/Agent/Container.antt =====
-- AtlasAgent/src/titus-agent.cpp and k8s-agent.cpp: `collect_titus_metrics` and
-- `collect_k8s_metrics`, from the first slow metrics on, with the schedule of the system agent's
-- loop.
pub mod Rate
use atlas_system_agent.Base.{ℕ, Bool, true, false, List, [], ◌∷◌, ◌++◌, if◌then◌else◌}
use atlas_system_agent.Agent.Loop.{
  Turn, Schedule, first_schedule, five_enabled, sixty_enabled, advance, goes_on,
}

-- AGENT_FLAVOR
pub data Flavor : Type 0 where
  titus k8s : Flavor

-- The calls of the collectors.
pub data ContainerCall : Type 0 where
  cgroup_cpu_stats : Bool → Bool → ContainerCall
  cgroup_io_stats : ContainerCall
  aws_collect cgroup_memory_stats_v2 cgroup_memory_stats_std_v2 cgroup_network_stats : ContainerCall
  titus_disk_stats k8s_disk_stats proc_collect_titus proc_collect_k8s : ContainerCall
  perf_metrics_collect gpu_metrics_collect service_monitor_collect : ContainerCall

unfoldable pub gather_slow_titus_metrics : List ContainerCall
gather_slow_titus_metrics =
    aws_collect ∷ cgroup_memory_stats_v2 ∷ cgroup_memory_stats_std_v2 ∷ cgroup_network_stats
    ∷ titus_disk_stats ∷ proc_collect_titus ∷ []

unfoldable pub gather_slow_k8s_metrics : List ContainerCall
gather_slow_k8s_metrics =
    aws_collect ∷ cgroup_memory_stats_v2 ∷ cgroup_memory_stats_std_v2 ∷ cgroup_network_stats
    ∷ k8s_disk_stats ∷ proc_collect_k8s ∷ []

unfoldable pub gather_slow : Flavor → List ContainerCall
unfolding gather_slow_titus_metrics gather_slow_k8s_metrics
gather_slow titus = gather_slow_titus_metrics
gather_slow k8s = gather_slow_k8s_metrics

-- The collectors that a turn calls, in order.
unfoldable pub container_calls : Flavor → Turn → Schedule → List ContainerCall
container_calls flavor t s =
    cgroup_cpu_stats (five_enabled t s) (sixty_enabled t s)
    ∷ ((if five_enabled t s then cgroup_io_stats ∷ [] else [])
        ++ (if sixty_enabled t s
            then gather_slow flavor
              ++ perf_metrics_collect ∷ gpu_metrics_collect ∷ service_monitor_collect ∷ []
            else []))

-- The calls of each turn that is run, and the schedule after them.
unfoldable pub run_container : Flavor → List Turn → Schedule → List (List ContainerCall) × Schedule
unfolding container_calls advance goes_on
run_container flavor [] s = ([], s)
run_container flavor (t ∷ ts) s =
    let next = advance t s in
    let rest = run_container flavor ts next in
    if goes_on t s
    then (container_calls flavor t s ∷ rest.0, rest.1)
    else (container_calls flavor t s ∷ [], next)

-- The slow metrics of the first iteration, and then the loop.
unfoldable pub collect_metrics : Flavor → ℕ → List Turn → List (List ContainerCall)
unfolding run_container gather_slow first_schedule
collect_metrics flavor now turns =
    gather_slow flavor ∷ (run_container flavor turns (first_schedule now)).0
