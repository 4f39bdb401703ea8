-- ===== src/Ebs/Gather.antt =====
-- ebs.cpp: what a pass over the devices sends, and when it succeeds.
use atlas_system_agent.Base.{
  ℕ, zero, suc, ◌+◌, ◌≤◌, ◌<◌, ◌≡◌, refl, ap, subst, ◌∙◌, Bool, true, false, ◌&&◌, Option, none,
  some, List, [], ◌∷◌, ◌++◌, String, Text, ltb, leb, if◌then◌else◌, length, get_elem?, drop, arith,
  Bool-cases, inl, inr,
}
use atlas_system_agent.Base.Outcome.{ok, ◌>>=◌}
use atlas_system_agent.Metrics.{Double, Metric}
use atlas_system_agent.Ebs.{
  Histogram, LogPage, atlas_naming_convention, Answer, not_opened, ioctl_failed, page,
  query_stats_from_device, ebs_histogram, histogram_bins, handle_histogram, total_metrics,
  update_metrics, gather_metrics,
}

drop-at :
    {A : Type 0} (l : List A) (i : ℕ)
    → i < length l
    → (x : A) × (get_elem? l i ≡ some x) × (drop i l ≡ x ∷ drop (suc i) l)
drop-at [] i h = absurd (omega arith)
drop-at (x ∷ l) zero h = (x, refl, refl)
drop-at (x ∷ l) (suc i) h = let (y, at, cut) = drop-at l i (omega arith) in (y, at, cut)

drop_next :
    {A : Type 0} (l : List A) (i : ℕ)
    → i < length l
    → (x : A) × (get_elem? l i ≡ some x) × (drop i l ≡ x ∷ drop (i + 1) l)
drop_next l i h =
    let (x, at, cut) = drop-at l i h in
    let next : suc i ≡ i + 1 = omega arith in (x, at, cut ∙ ap (λ k. x ∷ drop k l) next)

-- The array of a histogram has 64 bins.
abbrev pub IsArray : Histogram → Type 0
IsArray h = length h.bins ≡ 64

abbrev pub IsPage : Answer → Type 0
IsPage (page stats) =
    IsArray stats.read_io_latency_histogram × IsArray stats.write_io_latency_histogram
IsPage _ = Unit {0}

abbrev pub is_named : Histogram → Bool
is_named h = leb h.num_bins 28

abbrev pub device_succeeds : Option LogPage → Bool
device_succeeds none = false
device_succeeds (some stats) =
    is_named stats.read_io_latency_histogram && is_named stats.write_io_latency_histogram

abbrev pub all_succeed : (Text → Answer) → List Text → Bool
all_succeed answer [] = true
all_succeed answer (device ∷ devices) =
    device_succeeds (query_stats_from_device (answer device)) && all_succeed answer devices

query-IsPage :
    (answer : Answer) {stats : LogPage}
    → IsPage answer
    → query_stats_from_device answer ≡ some stats
    → IsPage (page stats)
unfolding query_stats_from_device
query-IsPage not_opened h e = absurd (ground arith)
query-IsPage ioctl_failed h e = absurd (ground arith)
query-IsPage (page stats) {stats = other} h e =
    let same : stats ≡ other = ground arith in subst (λ s. IsPage (page s)) same h

module _ {D : Type 0} ⦃fp : Double D⦄ where
  -- The first `n` bins, each with its name.
  abbrev pub labelled : Text → String → ℕ → List String → List ℕ → List (Metric D)
  labelled device id (suc n) (bin ∷ bins) (count ∷ counts) =
      ebs_histogram device id bin count ∷ labelled device id n bins counts
  labelled device id _ _ _ = []

  histogram_bins-labelled :
      (device : Text) (id : String) (bins : List ℕ) (rounds i : ℕ)
      → rounds + i ≤ 28
      → length bins ≡ 64
      → histogram_bins device id bins rounds i
        ≡ ok (labelled device id rounds (drop i atlas_naming_convention) (drop i bins))
  unfolding histogram_bins
  histogram_bins-labelled device id bins zero i h size = refl
  histogram_bins-labelled device id bins (suc rounds) i h size =
      let (bin, name_at, names) = drop_next atlas_naming_convention i (omega arith) in
      let (count, count_at, counts) = drop_next bins i (omega arith) in
      let ih = histogram_bins-labelled device id bins rounds (i + 1) (omega arith) size in
      rw (name_at, count_at, histogram_bins) (rw (names, counts, ih) refl)

  -- What a histogram sends, if all its bins have names.
  abbrev pub histogram_metrics : Histogram → Text → String → List (Metric D)
  histogram_metrics h device id =
      if is_named h then labelled device id h.num_bins atlas_naming_convention h.bins else []

  handle_histogram_lem :
      (h : Histogram) (device : Text) (id : String)
      → IsArray h
      → handle_histogram h device id ≡ ok (is_named h, histogram_metrics h device id)
  unfolding handle_histogram
  handle_histogram_lem h device id size = elim (Bool-cases (ltb 28 h.num_bins)) [
    | inl many ↦
        let unnamed : is_named h ≡ false = ground arith in rw (many, unnamed, handle_histogram) refl
    | inr few ↦
        let named : is_named h ≡ true = ground arith in
        let small : h.num_bins + 0 ≤ 28 = ground arith in
        rw (few, named, handle_histogram)
          (ap (λ r. r >>= λ ms. ok (true, ms))
            (histogram_bins-labelled device id h.bins h.num_bins 0 small size))
  ]

  -- What a device that answers sends.
  abbrev pub page_metrics : D → Text → LogPage → List (Metric D)
  page_metrics micro device stats =
      total_metrics micro device stats
      ++ (histogram_metrics stats.read_io_latency_histogram device "read"
          ++ histogram_metrics stats.write_io_latency_histogram device "write")

  abbrev pub answer_metrics : D → Text → Option LogPage → List (Metric D)
  answer_metrics micro device none = []
  answer_metrics micro device (some stats) = page_metrics micro device stats

  abbrev pub all_metrics : D → (Text → Answer) → List Text → List (Metric D)
  all_metrics micro answer [] = []
  all_metrics micro answer (device ∷ devices) =
      answer_metrics micro device (query_stats_from_device (answer device))
      ++ all_metrics micro answer devices

  update_metrics_lem :
      (micro : D) (device : Text) (stats : LogPage)
      → IsPage (page stats)
      → update_metrics micro true device stats
        ≡ ok (device_succeeds (some stats), page_metrics micro device stats)
  unfolding update_metrics
  update_metrics_lem micro device stats (read, write) =
      rw
        (
          handle_histogram_lem stats.read_io_latency_histogram device "read" read,
          handle_histogram_lem stats.write_io_latency_histogram device "write" write,
        )
        refl

  -- A pass sends the meters of every device that answers with an EBS page, whatever the others do, and
  -- of a histogram only if its bins have names; it succeeds exactly where every device answers so and
  -- no histogram has more than 28 bins. It never indexes a bin or a name that is not there.
  pub gather_metrics_lem :
      (micro : D) (answer : Text → Answer) (devices : List Text)
      → ((device : Text) → IsPage (answer device))
      → gather_metrics micro true answer devices
        ≡ ok (all_succeed answer devices, all_metrics micro answer devices)
  unfolding gather_metrics
  gather_metrics_lem micro answer [] pages = refl
  gather_metrics_lem micro answer (device ∷ devices) pages =
      step (query_stats_from_device (answer device)) refl
        (gather_metrics_lem micro answer devices pages)
    where
      step :
          (o : Option LogPage)
          → query_stats_from_device (answer device) ≡ o
          → gather_metrics micro true answer devices
            ≡ ok (all_succeed answer devices, all_metrics micro answer devices)
          → gather_metrics micro true answer (device ∷ devices)
            ≡ ok
                (all_succeed answer (device ∷ devices), all_metrics micro answer (device ∷ devices))
      step none e ih = rw (e, gather_metrics) (rw ih refl)
      step (some stats) e ih =
          let sent =
            update_metrics_lem micro device stats (query-IsPage (answer device) (pages device) e) in
          rw (e, gather_metrics) (rw (sent, ih) refl)
