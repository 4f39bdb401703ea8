-- ===== src/Cgroup/Memory/Balance.antt =====
-- cgroup.cpp: how the gauges of `MemoryStatsStdV2` add up.
use atlas_system_agent.Base.{◌≡◌, refl, true, List, [], ◌∷◌, String, codes, text_eq}
use atlas_system_agent.Base.Int.{ℤ, ◌+ℤ◌, ◌-ℤ◌, int_laws}
use atlas_system_agent.Metrics.{Double, Metric, metric, gauge}
use atlas_system_agent.Cgroup.Memory.{MemoryFiles, is_read, value_or_zero, memory_stats_std_v2}

-- The amounts behind the gauges.
pub record Amounts : Type 0 where
  pub avail : ℤ
  pub free : ℤ
  pub avail_swap : ℤ
  pub total_free : ℤ

-- They add up: what is used and what is free are the limits, of memory and of swap, and the cache is
-- available on top of what is free.
pub record AddUp (f : MemoryFiles) (a : Amounts) : Type 0 where
  pub memory : a.free +ℤ f.memory_current ≡ f.memory_max
  pub swap : a.avail_swap +ℤ f.memory_swap_current ≡ f.memory_swap_max
  pub cache : a.avail ≡ a.free +ℤ value_or_zero f.memory_stat (codes "file")
  pub total : a.total_free ≡ a.avail +ℤ a.avail_swap

regroup : (free cached swap : ℤ) → free +ℤ swap +ℤ cached ≡ free +ℤ cached +ℤ swap
regroup free cached swap = omega int_laws

module _ (D : Type 0) ⦃fp : Double D⦄ where
  abbrev pub gauges : MemoryFiles → Amounts → List (Metric D)
  gauges f a =
      value "mem.cached" (value_or_zero f.memory_stat (codes "file"))
      ∷ value "mem.shared" (value_or_zero f.memory_stat (codes "shmem"))
      ∷ value "mem.availReal" a.avail
      ∷ value "mem.freeReal" a.free
      ∷ value "mem.totalReal" f.memory_max
      ∷ value "mem.availSwap" a.avail_swap
      ∷ value "mem.totalSwap" f.memory_swap_max
      ∷ value "mem.totalFree" a.total_free
      ∷ []
    where
      value : String → ℤ → Metric D
      value name n = metric gauge name [] (fp.of_ℤ n)

  -- Where all four limits and usages are read, the gauges hold amounts that add up.
  pub memory_stats_std_v2_lem :
      (f : MemoryFiles)
      → is_read f.memory_max ≡ true
      → is_read f.memory_current ≡ true
      → is_read f.memory_swap_max ≡ true
      → is_read f.memory_swap_current ≡ true
      → (a : Amounts) × (memory_stats_std_v2 f ≡ gauges f a) × AddUp f a
  unfolding memory_stats_std_v2
  memory_stats_std_v2_lem f m c sm sc =
      let cached = value_or_zero f.memory_stat (codes "file") in
      let free = f.memory_max -ℤ f.memory_current in
      let swap = f.memory_swap_max -ℤ f.memory_swap_current in
      (
        record {
          avail = free +ℤ cached;
          free = free;
          avail_swap = swap;
          total_free = free +ℤ swap +ℤ cached;
        },
        rw (m, c, sm, sc) refl,
        record {
          memory = omega int_laws;
          swap = omega int_laws;
          cache = refl;
          total = regroup free cached swap;
        },
      )
