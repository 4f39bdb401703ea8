-- ===== src/Tests/Cpu.antt =====
-- lib/collectors/proc: two readings of a machine with one core.
use atlas_system_agent.Base.{
  ℕ, ◌+◌, ◌*◌, ◌≡◌, true, none, some, List, [], ◌∷◌, Text, codes, arith, text_eq,
}
use atlas_system_agent.Base.Int.{ℤ, pos}
use atlas_system_agent.Base.Outcome.{ok}
use atlas_system_agent.Metrics.{whole}
use atlas_system_agent.StrSplit.{str_split}
use atlas_system_agent.Proc.CpuFields.{CpuStatFields, deltas}
use atlas_system_agent.Proc.CpuFields.Bounds.{deltas_exact}
use atlas_system_agent.Proc.Stat.{parse_proc_stat_file}
use atlas_system_agent.Proc.CpuStats.{CpuState, CoreState, cpu_stats, publish_max}
use atlas_system_agent.Proc.CpuStats.Safety.{cpu_stats-parse_returns}
use atlas_system_agent.Proc.CpuStats.Cores.{IsOrdered, Published, publish_max-Published}

-- A reading with ten times `n` for the user, and `iowait` as given.
abbrev reading : ℕ → ℕ → CpuStatFields
reading n iowait = record {
  user = 10 * n;
  nice = n;
  system = n;
  idle = 100 * n;
  iowait = iowait;
  irq = n;
  softirq = n;
  steal = 0;
  guest = 0;
  guest_nice = 0;
}

-- From the first reading to the second one, `iowait` falls.
deltas_exact_example :
    let d = deltas (reading 1 9) (reading 2 4) in
    (d.user + 10 ≡ 20)
    × (d.nice + 1 ≡ 2)
    × (d.system + 1 ≡ 2)
    × (d.idle + 100 ≡ 200)
    × (d.stolen + 0 ≡ 0)
    × (d.interrupt + 1 + 1 ≡ 4)
    × (d.wait ≡ 0)
    × (d.total ≡ d.user + d.nice + d.system + d.idle + d.wait + d.interrupt + d.stolen)
deltas_exact_example =
    deltas_exact (reading 1 9) (reading 2 4)
      (record {
        user = omega arith;
        nice = omega arith;
        system = omega arith;
        idle = omega arith;
        irq = omega arith;
        softirq = omega arith;
        steal = omega arith;
      })
      (omega arith)

abbrev cpu_line : Text → Text → List Text
cpu_line name n = name ∷ n ∷ n ∷ n ∷ n ∷ n ∷ n ∷ n ∷ n ∷ n ∷ n ∷ []

abbrev no_core : CoreState ℤ
no_core = record { previous_cpu_stats = []; previous_core_usages = [] }

abbrev before : CpuState ℤ
before = record { utilization = none; peak = none; core = no_core }

-- The second line has too few fields.
abbrev content : List Text
content = codes "cpu 1 2 3 4 5 6 7 8 9 10" ∷ codes "cpu0 1 2" ∷ []

cpu_stats-parse_returns_example :
    (cpu_stats true true (parse_proc_stat_file str_split (some content)) before).outcome ≡ ok tt
cpu_stats-parse_returns_example = cpu_stats-parse_returns str_split (some content) true true before

-- The whole numbers are ordered.
whole_ordered : IsOrdered ℤ
whole_ordered = record {
  IsNumber = λ a. Unit;
  whole_number = tt;
  greater_number = λ a b h. tt;
  lt_irrefl = λ a. ground arith;
  not_lt_trans = λ a b c n h k. ground arith;
  lt_asym = λ a b h. ground arith;
}

-- Two cores have a usage.
abbrev used : CoreState ℤ
used = record {
  previous_cpu_stats = [];
  previous_core_usages = (codes "cpu0", pos 40) ∷ (codes "cpu1", pos 70) ∷ [];
}

publish_max-Published_example :
    Published whole_ordered used.previous_core_usages used (publish_max used)
publish_max-Published_example = publish_max-Published whole_ordered used
