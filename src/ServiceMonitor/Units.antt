-- ===== src/ServiceMonitor/Units.antt =====
-- service_monitor.cpp: `init_monitored_services`, and which units it picks.
use atlas_system_agent.Base.{
  ℕ, zero, suc, ◌+◌, ◌-◌, ◌≤◌, ◌≡◌, refl, sym, ap, ◌∙◌, ◌⊎◌, Bool, true, false, not, ◌&&◌, Option,
  none, some, List, [], ◌∷◌, ◌++◌, Text, if◌then◌else◌, leb, leb→le, length, take, arith,
  Bool-cases, Option-cases, inl, inr, append-nil, append_assoc, length-append,
}
use atlas_system_agent.Base.Int.{pos, ◌≤ℤ◌, leb_ℤ}
use atlas_system_agent.ServiceMonitor.Config.{Regexes}
use atlas_system_agent.ServiceMonitor.Host.{Host}
use atlas_system_agent.ServiceMonitor.State.{ServiceMonitor}

module _ (rx : Regexes) where
  open rx use {Regex, search_in}

  -- The `std::any_of` over the configured patterns, up to the first match; `none` where a search
  -- in front of it throws.
  unfoldable pub is_matched : List Regex → Text → Option Bool
  is_matched [] unit = some false
  is_matched (r ∷ rs) unit =
      let rest = is_matched rs unit in
      elim (search_in unit r) [ none ↦ none | some found ↦ if found then some true else rest ]

  -- The loop over the units, with its `continue` and its `break`: whether it ended without an
  -- exception, and what is monitored then.
  unfoldable pub add_units : List Regex → ℕ → List Text → List Text → Bool × List Text
  add_units config limit monitored [] = (true, monitored)
  add_units config limit monitored (unit ∷ units) =
      let skipped = add_units config limit monitored units in
      let added = add_units config limit (monitored ++ unit ∷ []) units in
      elim (is_matched config unit) [
        | none ↦ (false, monitored)
        | some matched ↦
            if matched
            then (if leb limit (length monitored) then (true, monitored) else added)
            else skipped
      ]

  -- The handler of the function ends it with `false`; what was added before stays.
  abbrev pub with_units : ServiceMonitor Regex → Bool × List Text → Bool × ServiceMonitor Regex
  with_units m (true, monitored) =
      (true, record m { init_success = true; monitored_services = monitored })
  with_units m (false, monitored) = (false, record m { monitored_services = monitored })

  unfoldable pub init_monitored_services : Host → ServiceMonitor Regex → Bool × ServiceMonitor Regex
  unfolding add_units
  init_monitored_services host m =
      let paged : ServiceMonitor Regex = record m { page_size = host.page_size } in
      let ticked : ServiceMonitor Regex = record paged { clk_tck = host.clk_tck } in
      if leb_ℤ host.page_size (pos 0)
      then (false, paged)
      else if leb_ℤ host.clk_tck (pos 0)
      then (false, ticked)
      else elim host.unit_names [
        | none ↦ (false, ticked)
        | some units ↦
            with_units ticked
              (add_units m.config m.max_monitored_services m.monitored_services units)
      ]

  abbrev pub thrown_of : Option Bool → Bool
  thrown_of none = true
  thrown_of (some _) = false

  -- The candidates among a unit, whose search gave this, and the units behind it.
  abbrev pub front_of : Option Bool → Text → List Text → List Text
  front_of none u rest = []
  front_of (some found) u rest = if found then u ∷ rest else rest

  abbrev pub any_throws : List Regex → List Text → Bool
  any_throws config [] = false
  any_throws config (u ∷ us) =
      let rest = any_throws config us in if thrown_of (is_matched config u) then true else rest

  -- The matching units in front of the first one whose search throws.
  abbrev pub candidates : List Regex → List Text → List Text
  candidates config [] = []
  candidates config (u ∷ us) = front_of (is_matched config u) u (candidates config us)

  -- Is a unit that throws reached, with room for this many services? It is unless more matching
  -- units than that stand in front of it.
  abbrev pub reaches_throw : List Regex → ℕ → List Text → Bool
  reaches_throw config room units =
      any_throws config units && leb (length (candidates config units)) room

  take-nil : (n : ℕ) → take {A = Text} n [] ≡ []
  take-nil zero = refl
  take-nil (suc n) = refl

  add_units_lem :
      (config : List Regex) (limit room : ℕ) (monitored units : List Text)
      → length monitored + room ≡ limit
      → add_units config limit monitored units
        ≡ (not (reaches_throw config room units), monitored ++ take room (candidates config units))
  unfolding add_units
  add_units_lem config limit room monitored [] h =
      ap (λ l. (true, l)) (sym (rw take-nil (append-nil monitored)))
  add_units_lem config limit room monitored (u ∷ us) h =
      of_search room h (λ r m e. add_units_lem config limit r m us e) (is_matched config u)
    where
      of_search :
          (room : ℕ)
          → length monitored + room ≡ limit
          → ((r : ℕ) (m : List Text)
              → length m + r ≡ limit
              → add_units config limit m us
                ≡ (not (reaches_throw config r us), m ++ take r (candidates config us)))
          → (o : Option Bool)
          → (elim o as (λ _. Bool × List Text) [
            | none ↦ (false, monitored)
            | some matched ↦
                if matched
                then (if leb limit (length monitored)
                    then (true, monitored)
                    else add_units config limit (monitored ++ u ∷ []) us)
                else add_units config limit monitored us
          ])
            ≡ (let found = front_of o u (candidates config us) in
                let thrown = if thrown_of o then true else any_throws config us in
                (not (thrown && leb (length found) room), monitored ++ take room found))
      of_search room h ih none =
          let fits : leb 0 room ≡ true = ground arith in rw (fits, take-nil, append-nil) refl
      of_search room h ih (some false) = ih room monitored h
      of_search zero h ih (some true) =
          let over : leb (suc (length (candidates config us))) 0 ≡ false = ground arith in
          let full : leb limit (length monitored) ≡ true = ground arith in
          let short : (any_throws config us && false) ≡ false = ground arith in
          rw (full, append-nil, over, short) refl
      of_search (suc room) h ih (some true) =
          let more : leb limit (length monitored) ≡ false = ground arith in
          let grown : length (monitored ++ u ∷ []) + room ≡ limit =
            omega (arith, length-append {0} monitored (u ∷ [])) in
          let less : leb (suc (length (candidates config us))) (suc room)
              ≡ leb (length (candidates config us)) room =
            ground arith in
          rw (more, less)
            (ih room (monitored ++ u ∷ []) grown
              ∙ ap (λ l. (not (reaches_throw config room us), l))
                  (append_assoc monitored (u ∷ []) _))

  -- The services after the loop, if what is monitored already has not filled the limit.
  abbrev pub picked : ServiceMonitor Regex → List Text → List Text
  picked m units =
      m.monitored_services
      ++ take (m.max_monitored_services - length m.monitored_services) (candidates m.config units)

  abbrev pub ends_thrown : ServiceMonitor Regex → List Text → Bool
  ends_thrown m units =
      reaches_throw m.config (m.max_monitored_services - length m.monitored_services) units

  -- What an initialisation does: it adds, in order, the first units that match, up to the limit; or it
  -- fails for what the host reports and adds nothing; or a search throws, and it fails with the
  -- units added that it found before.
  abbrev pub IsInitialised : Host → ServiceMonitor Regex → Bool × ServiceMonitor Regex → Type 0
  IsInitialised host m (true, n) =
      (pos 1 ≤ℤ host.page_size)
      × (pos 1 ≤ℤ host.clk_tck)
      × (n.page_size ≡ host.page_size)
      × (n.clk_tck ≡ host.clk_tck)
      × (n.init_success ≡ true)
      × ((units : List Text) × (host.unit_names ≡ some units)
          × (ends_thrown m units ≡ false)
          × (n.monitored_services ≡ picked m units))
  IsInitialised host m (false, n) =
      (n.init_success ≡ m.init_success)
      × ((((host.page_size ≤ℤ pos 0) ⊎ ((host.clk_tck ≤ℤ pos 0) ⊎ (host.unit_names ≡ none)))
            × (n.monitored_services ≡ m.monitored_services))
          ⊎ ((units : List Text) × (host.unit_names ≡ some units)
              × (ends_thrown m units ≡ true)
              × (n.monitored_services ≡ picked m units)))

  with_units-IsInitialised :
      (host : Host) (m : ServiceMonitor Regex) (units : List Text)
      → pos 1 ≤ℤ host.page_size
      → pos 1 ≤ℤ host.clk_tck
      → host.unit_names ≡ some units
      → (thrown : Bool) → ends_thrown m units ≡ thrown
      → IsInitialised host m (
          with_units
            (record m { page_size = host.page_size; clk_tck = host.clk_tck })
            (not thrown, picked m units))
  with_units-IsInitialised host m units page ticks found false e =
      (page, ticks, refl, refl, refl, (units, found, e, refl))
  with_units-IsInitialised host m units page ticks found true e =
      (refl, inr (units, found, e, refl))

  -- Of a monitor within its limit, `init_monitored_services` succeeds exactly when the page size and
  -- the clock ticks are positive, systemd lists its units and no search throws before the loop ends;
  -- then it adds the first matching units up to the limit, in order. Where a search throws it fails, and
  -- the matching units in front of that one stay added up to the limit; in the other cases it fails and
  -- adds none.
  pub init_monitored_services-IsInitialised :
      (host : Host) (m : ServiceMonitor Regex)
      → length m.monitored_services ≤ m.max_monitored_services
      → IsInitialised host m (init_monitored_services host m)
  unfolding init_monitored_services
  init_monitored_services-IsInitialised host m h =
      elim (Bool-cases (leb_ℤ host.page_size (pos 0))) [
        | inl bad ↦ rw bad (refl, inl (inl (omega (arith, leb→le)), refl))
        | inr paged ↦ elim (Bool-cases (leb_ℤ host.clk_tck (pos 0))) [
          | inl bad ↦ rw (paged, bad) (refl, inl (inr (inl (omega (arith, leb→le))), refl))
          | inr ticked ↦ elim (Option-cases host.unit_names) [
            | inl missing ↦ rw (paged, ticked, missing) (refl, inl (inr (inr refl), refl))
            | inr (units, found) ↦
                let run =
                  add_units_lem m.config m.max_monitored_services
                    (m.max_monitored_services - length m.monitored_services) m.monitored_services
                    units (omega arith) in
                rw (paged, ticked, found, run)
                  (with_units-IsInitialised (record host { unit_names = some units }) m units
                    (ground arith) (ground arith) refl (ends_thrown m units) refl)
          ]
        ]
      ]
