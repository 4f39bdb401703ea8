-- ===== src/Agent/Loop/Rate.antt =====
-- AtlasAgent/src/system-agent.cpp: how often the loop gathers the five and sixty second metrics,
-- and when a signal ends it.
use atlas_system_agent.Agent.Terminator.{wait_for}
use atlas_system_agent.Base.{
  select, ℕ, suc, ◌+◌, ◌-◌, ◌*◌, ◌/◌, ◌≤◌, ◌<◌, ◌≡◌, refl, Bool, true, false, List, [], ◌∷◌, ◌++◌,
  length, All, if◌then◌else◌, arith,
}
use atlas_system_agent.Agent.Loop.{
  Call, perfspect_collect, service_monitor_collect, Turn, Schedule, seconds, first_schedule,
  five_enabled, sixty_enabled, advance, goes_on, calls, run,
}

-- How often the turns gather the five and the sixty second metrics.
abbrev pub fives : List Turn → Schedule → ℕ
fives [] s = 0
fives (t ∷ ts) s = let rest = fives ts (advance t s) in if five_enabled t s then suc rest else rest

abbrev pub sixties : List Turn → Schedule → ℕ
sixties [] s = 0
sixties (t ∷ ts) s =
    let rest = sixties ts (advance t s) in if sixty_enabled t s then suc rest else rest

-- The turns start one after the other, none more than `gap` after the one in front of it.
abbrev pub Spaced : ℕ → ℕ → List Turn → Type 0
Spaced gap from [] = Unit
Spaced gap from (t ∷ ts) = (from ≤ t.start) × (t.start ≤ from + gap) × Spaced gap t.start ts

-- The start of the last turn.
abbrev pub last_start : ℕ → List Turn → ℕ
last_start from [] = from
last_start from (t ∷ ts) = last_start t.start ts

-- The five second metrics are due no more than five seconds after `from`, and not before it.
pub fives-window :
    (ts : List Turn) (s : Schedule) (from : ℕ)
    → Spaced (seconds 5) from ts
    → from < s.next_five_second_run
    → s.next_five_second_run ≤ from + seconds 5
    → let due = s.next_five_second_run + seconds 5 * fives ts s in
      (last_start from ts < due) × (due ≤ last_start from ts + seconds 5)
unfolding advance
fives-window [] s from h a b = (omega arith, omega arith)
fives-window (t ∷ ts) s from h a b =
    let after = fives-window ts (advance t s) t.start h.2 in ground arith

pub sixties-window :
    (ts : List Turn) (s : Schedule) (from : ℕ)
    → Spaced (seconds 60) from ts
    → from < s.next_sixty_second_run
    → s.next_sixty_second_run ≤ from + seconds 60
    → let due = s.next_sixty_second_run + seconds 60 * sixties ts s in
      (last_start from ts < due) × (due ≤ last_start from ts + seconds 60)
unfolding advance
sixties-window [] s from h a b = (omega arith, omega arith)
sixties-window (t ∷ ts) s from h a b =
    let after = sixties-window ts (advance t s) t.start h.2 in ground arith

abbrev pub is_perfspect : Call → Bool
is_perfspect perfspect_collect = true
is_perfspect _ = false

abbrev pub is_service_monitor : Call → Bool
is_service_monitor service_monitor_collect = true
is_service_monitor _ = false

-- How many of the turns make such a call.
abbrev pub turns_with : (Call → Bool) → List (List Call) → ℕ
turns_with p [] = 0
turns_with p (cs ∷ turns) =
    let rest = turns_with p turns in elim (select p cs) [ [] ↦ rest | _ ∷ _ ↦ suc rest ]

pub goes_on_lem : (t : Turn) (s : Schedule) → t.terminate ≡ false → goes_on t s ≡ true
unfolding goes_on wait_for
goes_on_lem t s h = ground arith

run-fives :
    (ts : List Turn) (s : Schedule)
    → All (λ t. t.terminate ≡ false) ts
    → (turns_with is_perfspect (run ts s).0 ≡ fives ts s)
      × (turns_with is_service_monitor (run ts s).0 ≡ sixties ts s)
unfolding run calls select
run-fives [] s h = (refl, refl)
run-fives (t ∷ ts) s h =
    let rest = run-fives ts (advance t s) h.1 in let on = goes_on_lem t s h.0 in ground arith

-- While no signal comes and no turn starts more than five seconds after the last one, perfspect is
-- collected once for every five seconds that have passed up to the last turn's start.
pub run-five_seconds :
    (now : ℕ) (ts : List Turn)
    → All (λ t. t.terminate ≡ false) ts
    → Spaced (seconds 5) now ts
    → turns_with is_perfspect (run ts (first_schedule now)).0
      ≡ (last_start now ts - now) / seconds 5
unfolding first_schedule
run-five_seconds now ts h spaced =
    let window = fives-window ts (first_schedule now) now spaced (omega arith) (omega arith) in
    let count = (run-fives ts (first_schedule now) h).0 in ground arith

-- While no signal comes and no turn starts more than sixty seconds after the last one, the services
-- are monitored once for every sixty seconds that have passed up to the last turn's start.
pub run-sixty_seconds :
    (now : ℕ) (ts : List Turn)
    → All (λ t. t.terminate ≡ false) ts
    → Spaced (seconds 60) now ts
    → turns_with is_service_monitor (run ts (first_schedule now)).0
      ≡ (last_start now ts - now) / seconds 60
unfolding first_schedule
run-sixty_seconds now ts h spaced =
    let window = sixties-window ts (first_schedule now) now spaced (omega arith) (omega arith) in
    let count = (run-fives ts (first_schedule now) h).1 in ground arith

-- Every turn is at its wait when the next one is due already.
abbrev pub Overdue : ℕ → List Turn → Type 0
Overdue due [] = Unit
Overdue due (t ∷ ts) = (due + seconds 1 ≤ t.before_wait) × Overdue (due + seconds 1) ts

-- A signal does not end the loop while its turns are overdue: all of them run.
pub run-Overdue :
    (ts : List Turn) (s : Schedule) → Overdue s.next_run ts → length (run ts s).0 ≡ length ts
unfolding run goes_on advance wait_for
run-Overdue [] s h = refl
run-Overdue (t ∷ ts) s h = let rest = run-Overdue ts (advance t s) h.1 in ground arith

-- A turn that reaches its wait in time, and is signalled, is the last.
pub run-signalled :
    (before after : List Turn) (t : Turn) (s : Schedule)
    → t.before_wait < s.next_run + seconds (length before + 1)
    → t.terminate ≡ true
    → length (run (before ++ t ∷ after) s).0 ≤ length before + 1
unfolding run goes_on advance wait_for
run-signalled [] after t s h e = ground arith
run-signalled (b ∷ before) after t s h e =
    let rest = run-signalled before after t (advance b s) (omega arith) e in ground arith
