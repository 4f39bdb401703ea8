-- ===== src/Perfspect.antt =====
-- lib/collectors/perfspect/src/perfspect.cpp: the process, its output and the metrics. The process and
-- the pipe are parameters: `ProcessAnswers` holds what they give during a call of `GatherMetrics`.
pub mod Instance
pub mod Lines
pub mod Restarts
use atlas_system_agent.Base.{
  ℕ, Bool, true, false, ◌||◌, Option, none, some, List, [], ◌∷◌, ◌++◌, Text, eqb, if◌then◌else◌,
}
use atlas_system_agent.Metrics.{Double, of_ℕ, Metric, metric, gauge, counter}

-- What a turn of `poll` hands to the handler: an error, or the line in front of a newline.
pub data Completion : Type 0 where
  failed : Completion
  read_line : Text → Completion

-- What the calls of `CleanupProcess` give: is the process running (`none` is an exception), and do
-- terminate and wait succeed?
pub record Cleanup : Type 0 where
  pub running : Option Bool
  pub terminated : Bool
  pub waited : Bool

pub record ProcessAnswers : Type 0 where
  pub running : Bool
  pub completions : List Completion
  pub cleanup : Cleanup
  pub launched : Bool

-- `script` is a process that is set, and `reading` a read that waits for a line.
pub record Perfspect : Type 0 where
  pub script : Bool
  pub reading : Bool
  pub first_iteration : Bool
  pub pending_line : Text
  pub last_async_error : Bool

unfoldable pub new_perfspect : Perfspect
new_perfspect = record {
  script = false;
  reading = false;
  first_iteration = true;
  pending_line = [];
  last_async_error = false;
}

-- The resets at the end of `CleanupProcess`.
abbrev pub reset : Perfspect → Perfspect
reset s = record {
  script = false;
  reading = false;
  first_iteration = true;
  pending_line = [];
  last_async_error = s.last_async_error;
}

unfoldable pub cleanup_process : Cleanup → Perfspect → Perfspect × Bool
cleanup_process a s =
    let stopped : Perfspect × Bool =
      if a.terminated then (if a.waited then (reset s, true) else (s, false)) else (s, false) in
    let at_script : Perfspect × Bool = elim a.running [
      | none ↦ (s, false)
      | some running ↦ if running then stopped else (reset s, true)
    ] in
    if s.script then at_script else (reset s, true)

-- The new process, whose output is read.
abbrev pub launch : Perfspect → Perfspect
launch s = record {
  script = true;
  reading = true;
  first_iteration = s.first_iteration;
  pending_line = s.pending_line;
  last_async_error = s.last_async_error;
}

-- Where the launch throws, no process is set, and the second `CleanupProcess` only resets.
unfoldable pub start_script : ProcessAnswers → Perfspect → Perfspect × Bool
unfolding cleanup_process
start_script a s =
    let cleaned = cleanup_process a.cleanup s in
    let started : Perfspect × Bool =
      if a.launched then (launch cleaned.0, true) else (reset cleaned.0, false) in
    if cleaned.1 then started else (cleaned.0, false)

-- The handler of a read. It reads on after a line, and not after an error.
unfoldable pub extract_line : Completion → Perfspect → Perfspect
extract_line failed s = record {
  script = s.script;
  reading = false;
  first_iteration = s.first_iteration;
  pending_line = s.pending_line;
  last_async_error = true;
}
extract_line (read_line line) s = record {
  script = s.script;
  reading = true;
  first_iteration = false;
  pending_line = if s.first_iteration then s.pending_line else line;
  last_async_error = false;
}

-- `ioContext->poll()`: the handlers of the reads that are complete, while one is waited for.
unfoldable pub poll : List Completion → Perfspect → Perfspect
unfolding extract_line
poll [] s = s
poll (c ∷ cs) s = let rest = poll cs (extract_line c s) in if s.reading then rest else s

pub record ReadResult : Type 0 where
  pub data_line : Option Text
  pub error : Bool

-- The pending line is empty when it has been moved.
abbrev pub taken : Perfspect → Perfspect
taken s = record {
  script = s.script;
  reading = s.reading;
  first_iteration = s.first_iteration;
  pending_line = [];
  last_async_error = s.last_async_error;
}

abbrev pub result_of : Perfspect → ReadResult × Perfspect
result_of s =
    let nothing : ReadResult = record { data_line = none; error = s.last_async_error } in
    let some_line : ReadResult × Perfspect = elim s.pending_line [
      | [] ↦ (nothing, s)
      | c ∷ line ↦ (record { data_line = some (c ∷ line); error = s.last_async_error }, taken s)
    ] in
    if s.last_async_error then (nothing, s) else some_line

unfoldable pub read_output : List Completion → Perfspect → ReadResult × Perfspect
unfolding poll
read_output completions s = result_of (poll completions s)

-- The texts between the commas.
unfoldable pub split_commas : Text → List Text
split_commas [] = [] ∷ []
split_commas (c ∷ s) =
    let rest = split_commas s in
    let longer : List Text = elim rest [ [] ↦ (c ∷ []) ∷ [] | t ∷ ts ↦ (c ∷ t) ∷ ts ] in
    if eqb c b',' then [] ∷ rest else longer

pub record PerfspectData (F : Type 0) : Type 0 where
  pub cpu_frequency : F
  pub cycles_per_second : F
  pub instructions_per_second : F
  pub l2_cache_misses_per_second : F

infixl 5 ◌>>=◌
abbrev ◌>>=◌ {ℓ κ} : {A : Type ℓ} {B : Type κ} → Option A → (A → Option B) → Option B
none >>= f = none
some a >>= f = f a

-- `F` is `float`, with `std::from_chars` and the conversion to `double`.
module _ {F D : Type 0} ⦃ff : Double F⦄ (widen : F → D) (from_chars : Text → Option F) where
  unfoldable pub parse_perfspect_line : Text → Option (PerfspectData F)
  unfolding split_commas
  parse_perfspect_line line = elim (split_commas line) [
    | _ ∷ _ ∷ _ ∷ _ ∷ frequency ∷ cycles ∷ instructions ∷ misses ∷ [] ↦ do
      cpu_frequency ← from_chars frequency
      cycles_per_second ← from_chars cycles
      instructions_per_second ← from_chars instructions
      l2_cache_misses_per_second ← from_chars misses
      some (record {
        cpu_frequency = cpu_frequency;
        cycles_per_second = cycles_per_second;
        instructions_per_second = instructions_per_second;
        l2_cache_misses_per_second = l2_cache_misses_per_second;
      })
    | _ ↦ none
  ]

  abbrev pub five_times : F → D
  five_times v = widen (ff.mul v (of_ℕ 5))

  unfoldable pub send_metrics : PerfspectData F → List (Metric D)
  send_metrics d =
      metric gauge "cpu.perfspect.frequency" [] (widen d.cpu_frequency)
      ∷ metric counter "cpu.perfspect.cycles" [] (five_times d.cycles_per_second)
      ∷ metric counter "cpu.perfspect.instructions" [] (five_times d.instructions_per_second)
      ∷ metric counter "cpu.perfspect.l2CacheMisses" [] (five_times d.l2_cache_misses_per_second)
      ∷ []

  unfoldable pub send_parsed :
      Option (PerfspectData F) → Perfspect → List (Metric D) × Perfspect × Bool
  unfolding send_metrics
  send_parsed none s = ([], s, false)
  send_parsed (some d) s = (send_metrics d, s, true)

  -- The end of `GatherMetrics`, from the result of the read on: the metrics, the state and what is
  -- returned.
  unfoldable pub respond :
      ProcessAnswers → ReadResult × Perfspect → List (Metric D) × Perfspect × Bool
  unfolding start_script parse_perfspect_line send_parsed
  respond a (result, next) =
      let answered : List (Metric D) × Perfspect × Bool = elim result.data_line [
        | none ↦ ([], next, true)
        | some line ↦ send_parsed (parse_perfspect_line line) next
      ] in
      if result.error then ([], (start_script a next).0, false) else answered

  unfoldable pub gather_metrics : ProcessAnswers → Perfspect → List (Metric D) × Perfspect × Bool
  unfolding start_script read_output respond
  gather_metrics a s =
      let started : List (Metric D) × Perfspect × Bool = ([], (start_script a s).0, true) in
      if s.script
      then (if a.running then respond a (read_output a.completions s) else started)
      else started

  -- `Collect`, one call after the other.
  unfoldable pub gather_all : List ProcessAnswers → Perfspect → List (List (Metric D)) × Perfspect
  unfolding gather_metrics
  gather_all [] s = ([], s)
  gather_all (a ∷ turns) s =
      let (sent, next, _) = gather_metrics a s in
      let (more, last) = gather_all turns next in (sent ∷ more, last)
