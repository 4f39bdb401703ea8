-- ===== src/Agent/Container/Rate.antt =====
-- AtlasAgent/src/titus-agent.cpp and k8s-agent.cpp: how often the loops gather the slow metrics, and
-- what the two flavors share.
use atlas_system_agent.Base.{
  select, ℕ, suc, ◌-◌, ◌/◌, ◌≤◌, ◌≡◌, refl, Bool, true, false, List, [], ◌∷◌, All, arith,
}
use atlas_system_agent.Agent.Loop.{Turn, Schedule, seconds, first_schedule, advance}
use atlas_system_agent.Agent.Loop.Rate.{
  fives, sixties, Spaced, last_start, fives-window, sixties-window, goes_on_lem,
}
use atlas_system_agent.Agent.Container.{
  Flavor, titus, k8s, ContainerCall, cgroup_io_stats, cgroup_memory_stats_v2, container_calls,
  gather_slow, gather_slow_titus_metrics, gather_slow_k8s_metrics, run_container, collect_metrics,
}

abbrev pub is_io_stats : ContainerCall → Bool
is_io_stats cgroup_io_stats = true
is_io_stats _ = false

abbrev pub is_memory_stats : ContainerCall → Bool
is_memory_stats cgroup_memory_stats_v2 = true
is_memory_stats _ = false

-- How many of the turns make such a call.
abbrev pub turns_calling : (ContainerCall → Bool) → List (List ContainerCall) → ℕ
turns_calling p [] = 0
turns_calling p (cs ∷ turns) =
    let rest = turns_calling p turns in elim (select p cs) [ [] ↦ rest | _ ∷ _ ↦ suc rest ]

run_container-rates :
    (flavor : Flavor) (ts : List Turn) (s : Schedule)
    → All (λ t. t.terminate ≡ false) ts
    → (turns_calling is_io_stats (run_container flavor ts s).0 ≡ fives ts s)
      × (turns_calling is_memory_stats (run_container flavor ts s).0 ≡ sixties ts s)
unfolding run_container container_calls select gather_slow gather_slow_titus_metrics
    gather_slow_k8s_metrics
run_container-rates flavor [] s h = (refl, refl)
run_container-rates titus (t ∷ ts) s h =
    let rest = run_container-rates titus ts (advance t s) h.1 in
    let on = goes_on_lem t s h.0 in ground arith
run_container-rates k8s (t ∷ ts) s h =
    let rest = run_container-rates k8s ts (advance t s) h.1 in
    let on = goes_on_lem t s h.0 in ground arith

Spaced-longer :
    (short long from : ℕ) (ts : List Turn)
    → short ≤ long
    → Spaced short from ts
    → Spaced long from ts
Spaced-longer short long from [] le h = h
Spaced-longer short long from (t ∷ ts) le h =
    (h.0, omega arith, Spaced-longer short long t.start ts le h.2)

loop_rates :
    (flavor : Flavor) (now : ℕ) (ts : List Turn)
    → All (λ t. t.terminate ≡ false) ts
    → Spaced (seconds 5) now ts
    → let turns = (run_container flavor ts (first_schedule now)).0 in
      let passed = last_start now ts - now in
      (turns_calling is_io_stats turns ≡ passed / seconds 5)
      × (suc (turns_calling is_memory_stats turns) ≡ suc (passed / seconds 60))
unfolding first_schedule
loop_rates flavor now ts h spaced =
    let s = first_schedule now in
    let count = run_container-rates flavor ts s h in
    let five = fives-window ts s now spaced (omega arith) (omega arith) in
    let longer = Spaced-longer (seconds 5) (seconds 60) now ts (omega arith) spaced in
    let sixty = sixties-window ts s now longer (omega arith) (omega arith) in
    (ground arith, ground arith)

-- While no signal comes and no turn starts more than five seconds after the last one, a container
-- agent of either flavor gathers the I/O statistics once for every five seconds that have passed up
-- to the last turn's start, and the memory statistics once at the start and once more for every
-- sixty seconds.
pub collect_metrics_rates :
    (flavor : Flavor) (now : ℕ) (ts : List Turn)
    → All (λ t. t.terminate ≡ false) ts
    → Spaced (seconds 5) now ts
    → let passed = last_start now ts - now in
      (turns_calling is_io_stats (collect_metrics flavor now ts) ≡ passed / seconds 5)
      × (turns_calling is_memory_stats (collect_metrics flavor now ts) ≡ suc (passed / seconds 60))
unfolding collect_metrics first_schedule gather_slow gather_slow_titus_metrics
    gather_slow_k8s_metrics select
collect_metrics_rates titus now ts h spaced = loop_rates titus now ts h spaced
collect_metrics_rates k8s now ts h spaced = loop_rates k8s now ts h spaced
