-- ===== src/Proc/CpuFields/Bounds.antt =====
-- The parts of an interval of CPU time.
use atlas_system_agent.Base.{ℕ, ◌+◌, ◌-◌, ◌<◌, ◌≤◌, ◌≡◌, arith}
use atlas_system_agent.Base.Numbers.{u64}
use atlas_system_agent.Proc.CpuFields.{CpuStatFields, deltas}

-- No counter but `iowait` went back.
pub record Advances (prev current : CpuStatFields) : Type 0 where
  pub user : prev.user ≤ current.user
  pub nice : prev.nice ≤ current.nice
  pub system : prev.system ≤ current.system
  pub idle : prev.idle ≤ current.idle
  pub irq : prev.irq ≤ current.irq
  pub softirq : prev.softirq ≤ current.softirq
  pub steal : prev.steal ≤ current.steal

abbrev pub cpu_sum : CpuStatFields → ℕ
cpu_sum f = f.user + f.nice + f.system + f.idle + f.iowait + f.irq + f.softirq + f.steal

-- If the counters advance and their sum fits 64 bits, the parts of the interval are the plain
-- differences, `iowait` counts only where it rose, and the total is the exact sum of the seven parts.
-- So no difference wraps, also where `iowait` falls.
pub deltas_exact :
    (prev current : CpuStatFields)
    → Advances prev current
    → cpu_sum current < u64
    → let d = deltas prev current in
      (d.user + prev.user ≡ current.user)
      × (d.nice + prev.nice ≡ current.nice)
      × (d.system + prev.system ≡ current.system)
      × (d.idle + prev.idle ≡ current.idle)
      × (d.stolen + prev.steal ≡ current.steal)
      × (d.interrupt + prev.irq + prev.softirq ≡ current.irq + current.softirq)
      × (d.wait ≡ current.iowait - prev.iowait)
      × (d.total ≡ d.user + d.nice + d.system + d.idle + d.wait + d.interrupt + d.stolen)
unfolding deltas
deltas_exact prev current a h = ground arith
