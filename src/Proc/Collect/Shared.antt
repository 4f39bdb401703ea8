-- ===== src/Proc/Collect/Shared.antt =====
-- proc.cpp: what the collection of the system and those of the containers send.
use atlas_system_agent.Base.{◌≡◌, refl, none, some, List, ◌++◌, arith}
use atlas_system_agent.Base.Outcome.{Outcome, ok, err}
use atlas_system_agent.Metrics.{Double, Metric, Tags}
use atlas_system_agent.Proc.Memory.{memory_stats}
use atlas_system_agent.Proc.Netstat.{netstat_stats, socket_stats}
use atlas_system_agent.Proc.Network.{network_stats}
use atlas_system_agent.Proc.Processes.{arp_stats, process_stats}
use atlas_system_agent.Proc.Snmp.{snmp_stats}
use atlas_system_agent.Proc.Vmstat.{vmstats, uptime_stats, loadavg_stats}
use atlas_system_agent.Proc.Collect.{
  Files, Calls, Run, ◌then_run◌, collect_system, collect_titus, collect_k8s,
}

-- A run that returned: both parts returned.
then_run-ok :
    {D : Type 0} (first second : Run D) {ms : List (Metric D)}
    → (first then_run second) ≡ some (ok ms)
    → (a : List (Metric D)) × (b : List (Metric D)) × (first ≡ some (ok a))
      × (second ≡ some (ok b))
      × (ms ≡ a ++ b)
then_run-ok (some (ok a)) (some (ok b)) e = (a, b, refl, refl, ground arith)
then_run-ok (some (ok a)) (some (err x)) e = absurd (ground arith)
then_run-ok (some (ok a)) none e = absurd (ground arith)
then_run-ok (some (err x)) second e = absurd (ground arith)
then_run-ok none second e = absurd (ground arith)

ok_of :
    {D : Type 0} (o : Outcome (List (Metric D))) {a : List (Metric D)}
    → some o ≡ some (ok a)
    → o ≡ ok a
ok_of o e = cc

sent_of :
    {D : Type 0} (ms : List (Metric D)) {a : List (Metric D)} → some (ok ms) ≡ some (ok a) → ms ≡ a
sent_of ms e = cc

joined :
    {A : Type 0} (a b c d e f g h i vm : List A) {ms r1 r2 r3 r4 r5 r6 r7 r8 : List A}
    → ms ≡ a ++ r1
    → r1 ≡ b ++ r2
    → r2 ≡ c ++ r3
    → r3 ≡ d ++ r4
    → r4 ≡ e ++ r5
    → r5 ≡ f ++ r6
    → r6 ≡ g ++ r7
    → r7 ≡ h ++ r8
    → r8 ≡ i ++ vm
    → ms ≡ a ++ (b ++ (c ++ (d ++ (e ++ (f ++ (g ++ (h ++ (i ++ vm))))))))
joined a b c d e f g h i vm j1 j2 j3 j4 j5 j6 j7 j8 j9 =
    rw (j1, j2, j3, j4, j5, j6, j7, j8, j9) refl

-- What each of the ten collectors sends.
pub record Parts (D : Type 0) : Type 0 where
  pub arp : List (Metric D)
  pub loadavg : List (Metric D)
  pub memory : List (Metric D)
  pub netstat : List (Metric D)
  pub network : List (Metric D)
  pub processes : List (Metric D)
  pub snmp : List (Metric D)
  pub sockets : List (Metric D)
  pub uptime : List (Metric D)
  pub vm : List (Metric D)

abbrev pub system_metrics : {D : Type 0} → Parts D → List (Metric D)
system_metrics p =
    p.arp
    ++ (p.loadavg
        ++ (p.memory
            ++ (p.netstat
                ++ (p.network ++ (p.processes ++ (p.snmp ++ (p.sockets ++ (p.uptime ++ p.vm))))))))

abbrev pub container_metrics : {D : Type 0} → Parts D → List (Metric D)
container_metrics p = p.netstat ++ (p.network ++ (p.processes ++ (p.snmp ++ p.uptime)))

module _ {D : Type 0} ⦃fp : Double D⦄ (calls : Calls D) (net_tags : Tags) (files : Files) where
  -- Each collector returns, and sends its part.
  pub record AreParts (p : Parts D) : Type 0 where
    pub arp_sent : arp_stats net_tags files.arp ≡ p.arp
    pub loadavg_sent : loadavg_stats calls.scan_doubles files.loadavg ≡ ok p.loadavg
    pub memory_sent : memory_stats files.meminfo ≡ ok p.memory
    pub netstat_sent :
        netstat_stats calls.split calls.simple_atoi net_tags files.netstat ≡ ok p.netstat
    pub network_sent : network_stats net_tags files.dev ≡ some (ok p.network)
    pub processes_sent : process_stats files.tasks files.processes ≡ p.processes
    pub snmp_sent :
        snmp_stats net_tags calls.split files.snmp files.tcp files.tcp6 files.snmp6 ≡ ok p.snmp
    pub sockets_sent :
        socket_stats calls.split calls.simple_atoi calls.pagesize files.sockstat ≡ ok p.sockets
    pub uptime_sent : uptime_stats calls.split files.uptime ≡ ok p.uptime
    pub vm_sent : vmstats files.stat files.vmstat files.file_nr ≡ ok p.vm

  -- The runs in the order of the calls.
  abbrev arp_run : Run D
  arp_run = some (ok (arp_stats net_tags files.arp))

  abbrev loadavg_run : Run D
  loadavg_run = some (loadavg_stats calls.scan_doubles files.loadavg)

  abbrev memory_run : Run D
  memory_run = some (memory_stats files.meminfo)

  abbrev netstat_run : Run D
  netstat_run = some (netstat_stats calls.split calls.simple_atoi net_tags files.netstat)

  abbrev network_run : Run D
  network_run = network_stats net_tags files.dev

  abbrev process_run : Run D
  process_run = some (ok (process_stats files.tasks files.processes))

  abbrev snmp_run : Run D
  snmp_run = some (snmp_stats net_tags calls.split files.snmp files.tcp files.tcp6 files.snmp6)

  abbrev socket_run : Run D
  socket_run = some (socket_stats calls.split calls.simple_atoi calls.pagesize files.sockstat)

  abbrev uptime_run : Run D
  uptime_run = some (uptime_stats calls.split files.uptime)

  abbrev vm_run : Run D
  vm_run = some (vmstats files.stat files.vmstat files.file_nr)

  system-parts :
      (ms : List (Metric D))
      → collect_system calls net_tags files ≡ some (ok ms)
      → (p : Parts D) × AreParts p × (ms ≡ system_metrics p)
  unfolding collect_system
  system-parts ms e =
      let (arp, r1, e1, s1, j1) = then_run-ok arp_run _ e in
      let (loadavg, r2, e2, s2, j2) = then_run-ok loadavg_run _ s1 in
      let (memory, r3, e3, s3, j3) = then_run-ok memory_run _ s2 in
      let (netstat, r4, e4, s4, j4) = then_run-ok netstat_run _ s3 in
      let (network, r5, e5, s5, j5) = then_run-ok network_run _ s4 in
      let (processes, r6, e6, s6, j6) = then_run-ok process_run _ s5 in
      let (snmp, r7, e7, s7, j7) = then_run-ok snmp_run _ s6 in
      let (sockets, r8, e8, s8, j8) = then_run-ok socket_run _ s7 in
      let (uptime, vm, e9, s9, j9) = then_run-ok uptime_run _ s8 in
      (
        record {
          arp = arp;
          loadavg = loadavg;
          memory = memory;
          netstat = netstat;
          network = network;
          processes = processes;
          snmp = snmp;
          sockets = sockets;
          uptime = uptime;
          vm = vm;
        },
        record {
          arp_sent = sent_of _ e1;
          loadavg_sent = ok_of _ e2;
          memory_sent = ok_of _ e3;
          netstat_sent = ok_of _ e4;
          network_sent = e5;
          processes_sent = sent_of _ e6;
          snmp_sent = ok_of _ e7;
          sockets_sent = ok_of _ e8;
          uptime_sent = ok_of _ e9;
          vm_sent = ok_of _ s9;
        },
        joined arp loadavg memory netstat network processes snmp sockets uptime vm j1 j2 j3 j4 j5 j6
            j7 j8 j9,
      )

  titus-parts :
      (p : Parts D)
      → AreParts p
      → collect_titus calls net_tags files ≡ some (ok (container_metrics p))
  unfolding collect_titus
  titus-parts p a =
      rw (a.netstat_sent, a.network_sent, a.processes_sent, a.snmp_sent, a.uptime_sent) refl

  k8s-parts :
      (p : Parts D)
      → AreParts p
      → collect_k8s calls net_tags files ≡ some (ok (container_metrics p))
  unfolding collect_k8s
  k8s-parts p a =
      rw (a.netstat_sent, a.network_sent, a.processes_sent, a.snmp_sent, a.uptime_sent) refl

  -- Over the same files, where the collection of the system returns, each of its ten collectors
  -- returns and it sends their metrics in the order of the calls; and those of a Titus container and
  -- of Kubernetes return, and each sends exactly what netstat, network, processes, SNMP and uptime send.
  pub collect_system-containers :
      (ms : List (Metric D))
      → collect_system calls net_tags files ≡ some (ok ms)
      → (p : Parts D) × AreParts p
        × (ms ≡ system_metrics p)
        × (collect_titus calls net_tags files ≡ some (ok (container_metrics p)))
        × (collect_k8s calls net_tags files ≡ some (ok (container_metrics p)))
  collect_system-containers ms e =
      let (p, a, all) = system-parts ms e in (p, a, all, titus-parts p a, k8s-parts p a)
