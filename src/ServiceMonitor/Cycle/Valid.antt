-- ===== src/ServiceMonitor/Cycle/Valid.antt =====
-- What holds of a service monitor between two cycles.
use atlas_system_agent.Base.{
  ℕ, zero, suc, ◌-◌, ◌≤◌, ◌≡◌, refl, ◌∙◌, Bool, true, false, Option, none, some, List, [], ◌∷◌,
  Text, All, arith, inl, inr, ◌⊎◌, length, length-append, take, All-append, length-take-le,
  if◌then◌else◌,
}
use atlas_system_agent.Base.Int.{pos, ◌≤ℤ◌}
use atlas_system_agent.Metrics.{Double}
use atlas_system_agent.StrSplit.{StrSplit}
use atlas_system_agent.ServiceMonitor.Config.{Regexes}
use atlas_system_agent.ServiceMonitor.Host.{Host}
use atlas_system_agent.ServiceMonitor.State.{ServiceMonitor, new}
use atlas_system_agent.ServiceMonitor.Units.{
  is_matched, front_of, candidates, with_units, picked, init_monitored_services, IsInitialised,
  init_monitored_services-IsInitialised,
}
use atlas_system_agent.ServiceMonitor.Cycle.{
  update_metrics, gather_listed, gather_after, gather_metrics,
}

module _ (rx : Regexes) where
  open rx use {Regex}

  -- Every monitored service matches a pattern, there are no more than the limit, and once the
  -- initialisation has succeeded the divisor and the scale of the readings are positive.
  pub record IsValid (m : ServiceMonitor Regex) : Type 0 where
    pub within_limit : length m.monitored_services ≤ m.max_monitored_services
    pub all_matched : All (λ s. is_matched rx m.config s ≡ some true) m.monitored_services
    pub ticks_pos : (m.init_success ≡ false) ⊎ (pos 1 ≤ℤ m.clk_tck)
    pub page_pos : (m.init_success ≡ false) ⊎ (pos 1 ≤ℤ m.page_size)

  pub new-IsValid : (config : List Regex) (n : ℕ) → IsValid (new config n)
  unfolding new
  new-IsValid config n = record {
    within_limit = ground arith;
    all_matched = tt;
    ticks_pos = inl refl;
    page_pos = inl refl;
  }

  candidates-All :
      (config : List Regex) (n : ℕ) (us : List Text)
      → All (λ s. is_matched rx config s ≡ some true) (take n (candidates rx config us))
  candidates-All config zero us = tt
  candidates-All config (suc n) [] = tt
  candidates-All config (suc n) (u ∷ us) =
      of_search (λ k. candidates-All config k us) (is_matched rx config u) refl
    where
      of_search :
          ((k : ℕ)
            → All (λ s. is_matched rx config s ≡ some true) (take k (candidates rx config us)))
          → (o : Option Bool) → is_matched rx config u ≡ o
          → All
              (λ s. is_matched rx config s ≡ some true)
              (take (suc n) (front_of rx o u (candidates rx config us)))
      of_search rest none e = tt
      of_search rest (some true) e = (e, rest n)
      of_search rest (some false) e = rest (suc n)

  with_units-config :
      (m : ServiceMonitor Regex) (r : Bool × List Text)
      → let n = (with_units rx m r).1 in
        (n.config ≡ m.config) × (n.max_monitored_services ≡ m.max_monitored_services)
  with_units-config m (true, services) = (refl, refl)
  with_units-config m (false, services) = (refl, refl)

  init-config :
      (host : Host) (m : ServiceMonitor Regex)
      → let n = (init_monitored_services rx host m).1 in
        (n.config ≡ m.config) × (n.max_monitored_services ≡ m.max_monitored_services)
  unfolding init_monitored_services
  init-config host m = ground (
    arith,
    λ (r : Bool × List Text).
        with_units-config (record m { page_size = host.page_size; clk_tck = host.clk_tck }) r,
  )

  -- What an initialisation leaves is within the limit, and matches.
  IsPicked : ServiceMonitor Regex → List Text → Type 0
  IsPicked m services =
      (length services ≤ m.max_monitored_services)
      × All (λ s. is_matched rx m.config s ≡ some true) services

  picked-IsPicked :
      (m : ServiceMonitor Regex) (units : List Text) → IsValid m → IsPicked m (picked rx m units)
  unfolding IsPicked
  picked-IsPicked m units v =
      let room = m.max_monitored_services - length m.monitored_services in
      (
        omega (
          arith,
          v.within_limit,
          length-append {0} m.monitored_services (take room (candidates rx m.config units)),
          length-take-le {0} room (candidates rx m.config units),
        ),
        All-append _ m.monitored_services _ v.all_matched (candidates-All m.config room units),
      )

  init-IsValid :
      (host : Host) (m : ServiceMonitor Regex)
      → m.init_success ≡ false
      → IsValid m
      → IsValid (init_monitored_services rx host m).1
  unfolding IsPicked
  init-IsValid host m off v =
      let r = init_monitored_services rx host m in
      go r.0 r.1 (init_monitored_services-IsInitialised rx host m v.within_limit)
        (init-config host m)
    where
      stopped :
          (n : ServiceMonitor Regex)
          → n.init_success ≡ m.init_success
          → IsPicked m n.monitored_services
          → ((n.config ≡ m.config) × (n.max_monitored_services ≡ m.max_monitored_services))
          → IsValid n
      stopped n same (short, matched) (config, limit) = record {
        within_limit = rw limit short;
        all_matched = rw config matched;
        ticks_pos = inl (same ∙ off);
        page_pos = inl (same ∙ off);
      }

      go :
          (b : Bool) (n : ServiceMonitor Regex)
          → IsInitialised rx host m (b, n)
          → ((n.config ≡ m.config) × (n.max_monitored_services ≡ m.max_monitored_services))
          → IsValid n
      go true n (page, clk, pe, ce, se, (units, _, _, e)) (config, limit) =
          let (short, matched) = picked-IsPicked m units v in
          record {
            within_limit = rw (limit, e) short;
            all_matched = rw (config, e) matched;
            ticks_pos = inr (rw ce clk);
            page_pos = inr (rw pe page);
          }
      go false n (same, inl (_, kept)) same_config =
          stopped n same (rw kept (v.within_limit, v.all_matched)) same_config
      go false n (same, inr (units, _, _, e)) same_config =
          stopped n same (rw e (picked-IsPicked m units v)) same_config

  module _ (D : Type 0) ⦃fp : Double D⦄ (split : StrSplit) (host : Host) where
    gather_listed-IsValid :
        (services : List Text) (m : ServiceMonitor Regex)
        → IsValid m
        → IsValid (gather_listed {D = D} split host services m).cpu
    unfolding gather_listed update_metrics
    gather_listed-IsValid [] m v = v
    gather_listed-IsValid (_ ∷ _) m v = record {
      within_limit = v.within_limit;
      all_matched = v.all_matched;
      ticks_pos = v.ticks_pos;
      page_pos = v.page_pos;
    }

    gather_after-IsValid :
        (r : Bool × ServiceMonitor Regex)
        → IsValid r.1
        → IsValid (gather_after {D = D} split host r).cpu
    unfolding gather_after
    gather_after-IsValid (true, m) v = gather_listed-IsValid m.monitored_services m v
    gather_after-IsValid (false, m) v = v

    -- Every call of `gather_metrics`, whatever the machine reports and whether or not a search throws,
    -- keeps the monitor valid.
    pub gather_metrics-IsValid :
        (m : ServiceMonitor Regex)
        → IsValid m
        → IsValid (gather_metrics {D = D} split host rx m).cpu
    unfolding gather_metrics
    gather_metrics-IsValid m v = gather_after-IsValid _ (start m.init_success refl)
      where
        start :
            (b : Bool)
            → m.init_success ≡ b
            → IsValid (if b then (true, m) else init_monitored_services rx host m).1
        start true on = v
        start false off = init-IsValid host m off v
