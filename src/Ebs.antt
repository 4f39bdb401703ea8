-- ===== src/Ebs.antt =====
-- lib/collectors/ebs/src/ebs.h and ebs.cpp: the metrics of the EBS devices.
pub mod Config
pub mod Gather
use atlas_system_agent.Base.{
  ℕ, zero, suc, ◌+◌, Bool, true, false, not, ◌&&◌, Option, none, some, List, [], ◌∷◌, ◌++◌, String,
  Text, codes, eqb, ltb, if◌then◌else◌, length, get_elem?,
}
use atlas_system_agent.Base.Outcome.{Outcome, ok, err, thrown, undefined, ◌>>=◌}
use atlas_system_agent.Metrics.{Double, of_ℕ, metric, Metric, gauge, monotonic_counter}

-- The number of bins, and the counts of the array's bins.
pub record Histogram : Type 0 where
  pub num_bins : ℕ
  pub bins : List ℕ

-- The log page, without its reserved bytes and the bounds of the bins.
pub record LogPage : Type 0 where
  pub magic : ℕ
  pub total_read_ops : ℕ
  pub total_write_ops : ℕ
  pub total_read_bytes : ℕ
  pub total_write_bytes : ℕ
  pub total_read_time : ℕ
  pub total_write_time : ℕ
  pub ebs_volume_performance_exceeded_iops : ℕ
  pub ebs_volume_performance_exceeded_tp : ℕ
  pub ec2_instance_ebs_performance_exceeded_iops : ℕ
  pub ec2_instance_ebs_performance_exceeded_tp : ℕ
  pub volume_queue_length : ℕ
  pub read_io_latency_histogram : Histogram
  pub write_io_latency_histogram : Histogram

abbrev pub stats_magic : ℕ
stats_magic = 0x3C23B510

abbrev pub atlas_naming_convention : List String
atlas_naming_convention =
    "us_00000000_00000001" ∷ "us_00000001_00000002" ∷ "us_00000002_00000004"
    ∷ "us_00000004_00000008" ∷ "us_00000008_00000016" ∷ "us_00000016_00000032"
    ∷ "us_00000032_00000064" ∷ "us_00000064_00000128" ∷ "us_00000128_00000256"
    ∷ "us_00000256_00000512" ∷ "us_00000512_00001024" ∷ "us_00001024_00002048"
    ∷ "us_00002048_00004096" ∷ "us_00004096_00008192" ∷ "us_00008192_00016384"
    ∷ "us_00016384_00032768" ∷ "us_00032768_00065536" ∷ "us_00065536_00131072"
    ∷ "us_00131072_00262144" ∷ "us_00262144_00524288" ∷ "us_00524288_01048576"
    ∷ "us_01048576_02097152" ∷ "us_02097152_04194304" ∷ "us_04194304_08388608"
    ∷ "us_08388608_16777216" ∷ "us_16777216_33554432" ∷ "us_33554432_67108864" ∷ "us_67108864_MAX"
    ∷ []

-- What a device answers: it cannot be opened, `ioctl` fails, or the page.
pub data Answer : Type 0 where
  not_opened ioctl_failed : Answer
  page : LogPage → Answer

-- `query_stats_from_device`; `none` is `false`.
unfoldable pub query_stats_from_device : Answer → Option LogPage
query_stats_from_device (page stats) = if eqb stats.magic stats_magic then some stats else none
query_stats_from_device _ = none

module _ {D : Type 0} ⦃fp : Double D⦄ where
  unfoldable pub ebs_gauge : String → Text → ℕ → Metric D
  ebs_gauge name device n = metric gauge name (("dev", device) ∷ []) (of_ℕ n)

  unfoldable pub ebs_monocounter : String → Text → String → D → Metric D
  ebs_monocounter name device id v =
      metric monotonic_counter name (("dev", device) ∷ ("id", codes id) ∷ []) v

  unfoldable pub ebs_histogram : Text → String → String → ℕ → Metric D
  ebs_histogram device id bin n =
      metric monotonic_counter "aws.ebs.ioLatencyHistogram"
        (("dev", device) ∷ ("id", codes id) ∷ ("bin", codes bin) ∷ []) (of_ℕ n)

  -- The loop over the bins from `i` on, with the rounds left: `at` throws, and the array does not.
  unfoldable pub histogram_bins : Text → String → List ℕ → ℕ → ℕ → Outcome (List (Metric D))
  unfolding ebs_histogram
  histogram_bins device id bins zero i = ok []
  histogram_bins device id bins (suc rounds) i =
      let rest = histogram_bins device id bins rounds (i + 1) in
      elim (get_elem? atlas_naming_convention i) [
        | none ↦ err thrown
        | some bin ↦ elim (get_elem? bins i) [
          | none ↦ err undefined
          | some n ↦ rest >>= λ ms. ok (ebs_histogram device id bin n ∷ ms)
        ]
      ]

  unfoldable pub handle_histogram : Histogram → Text → String → Outcome (Bool × List (Metric D))
  unfolding histogram_bins
  handle_histogram h device id =
      if ltb (length atlas_naming_convention) h.num_bins
      then ok (false, [])
      else (histogram_bins device id h.bins h.num_bins 0 >>= λ ms. ok (true, ms))

  -- The first eleven meters; `micro` is the literal .000001.
  unfoldable pub total_metrics : D → Text → LogPage → List (Metric D)
  unfolding ebs_gauge ebs_monocounter
  total_metrics micro device stats =
      let scaled : ℕ → D = λ n. fp.mul (of_ℕ n) micro in
      ebs_monocounter "aws.ebs.totalOperations" device "read" (of_ℕ stats.total_read_ops)
      ∷ ebs_monocounter "aws.ebs.totalOperations" device "write" (of_ℕ stats.total_write_ops)
      ∷ ebs_monocounter "aws.ebs.totalBytes" device "read" (of_ℕ stats.total_read_bytes)
      ∷ ebs_monocounter "aws.ebs.totalBytes" device "write" (of_ℕ stats.total_write_bytes)
      ∷ ebs_monocounter "aws.ebs.totalTime" device "read" (scaled stats.total_read_time)
      ∷ ebs_monocounter "aws.ebs.totalTime" device "write" (scaled stats.total_write_time)
      ∷ ebs_monocounter "aws.ebs.perfExceededIOPS" device "volume"
          (scaled stats.ebs_volume_performance_exceeded_iops)
      ∷ ebs_monocounter "aws.ebs.perfExceededIOPS" device "instance"
          (scaled stats.ec2_instance_ebs_performance_exceeded_iops)
      ∷ ebs_monocounter "aws.ebs.perfExceededTput" device "volume"
          (scaled stats.ebs_volume_performance_exceeded_tp)
      ∷ ebs_monocounter "aws.ebs.perfExceededTput" device "instance"
          (scaled stats.ec2_instance_ebs_performance_exceeded_tp)
      ∷ ebs_gauge "aws.ebs.volumeQueueLength" device stats.volume_queue_length
      ∷ []

  -- `registered` is a registry that is not null.
  unfoldable pub update_metrics : D → Bool → Text → LogPage → Outcome (Bool × List (Metric D))
  unfolding handle_histogram total_metrics
  update_metrics micro registered device stats =
      let histograms : Outcome (Bool × List (Metric D)) =
        handle_histogram stats.read_io_latency_histogram device "read" >>= λ r.
        handle_histogram stats.write_io_latency_histogram device "write" >>= λ w.
        ok (r.0 && w.0, total_metrics micro device stats ++ (r.1 ++ w.1)) in
      if registered then histograms else ok (false, [])

  unfoldable pub gather_metrics :
      D → Bool → (Text → Answer) → List Text → Outcome (Bool × List (Metric D))
  unfolding query_stats_from_device update_metrics
  gather_metrics micro registered answer [] = ok (true, [])
  gather_metrics micro registered answer (device ∷ devices) =
      let rest = gather_metrics micro registered answer devices in
      elim (query_stats_from_device (answer device)) [
        | none ↦ rest >>= λ r. ok (false, r.1)
        | some stats ↦ update_metrics micro registered device stats >>= λ u.
            rest >>= λ r. ok (u.0 && r.0, u.1 ++ r.1)
      ]

  -- `Collect`: nothing where the collector is disabled; a failure is only logged.
  unfoldable pub collect : D → (Text → Answer) → Option (List Text) → Outcome (List (Metric D))
  unfolding gather_metrics
  collect micro answer none = ok []
  collect micro answer (some config) = gather_metrics micro true answer config >>= λ r. ok r.1
