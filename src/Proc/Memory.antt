-- ===== src/Proc/Memory.antt =====
-- proc.cpp: `memory_stats`. The file is the buffers that `fgets` fills; `none` is a file that cannot be
-- opened.
pub mod Free
use atlas_system_agent.Base.{
  ℕ, ◌+◌, ◌%◌, Bool, true, false, Option, none, some, List, [], ◌∷◌, ◌++◌, String, Text, codes,
  if◌then◌else◌,
}
use atlas_system_agent.Base.Numbers.{u64}
use atlas_system_agent.Base.Outcome.{Outcome, ok, err, undefined, ◌>>=◌}
use atlas_system_agent.Metrics.{Double, of_ℕ, metric, Metric, gauge}
use atlas_system_agent.Stdio.{sscanf_ulongs}
use atlas_system_agent.Util.{starts_with}

-- A line that is looked for: its format, its gauge, and whether its number counts as free memory.
pub record MemField : Type 0 where
  pub label : String
  pub meter : String
  pub is_free : Bool

abbrev field : String → String → Bool → MemField
field label meter is_free = record { label = label; meter = meter; is_free = is_free }

-- The ladder of tests.
unfoldable pub mem_field : Text → Option MemField
unfolding starts_with
mem_field line =
    if starts_with line (codes "MemTotal:")
    then some (field "MemTotal:" "mem.totalReal" false)
    else if starts_with line (codes "MemFree:")
    then some (field "MemFree:" "mem.freeReal" true)
    else if starts_with line (codes "MemAvailable:")
    then some (field "MemAvailable:" "mem.availReal" false)
    else if starts_with line (codes "SwapFree:")
    then some (field "SwapFree:" "mem.availSwap" true)
    else if starts_with line (codes "SwapTotal:")
    then some (field "SwapTotal:" "mem.totalSwap" false)
    else if starts_with line (codes "Buffers:")
    then some (field "Buffers:" "mem.buffer" false)
    else if starts_with line (codes "Cached:")
    then some (field "Cached:" "mem.cached" false)
    else if starts_with line (codes "Shmem:")
    then some (field "Shmem:" "mem.shared" false)
    else none

module _ {D : Type 0} ⦃fp : Double D⦄ where
  abbrev pub kibibytes : String → ℕ → Metric D
  kibibytes name n = metric gauge name [] (fp.mul (of_ℕ n) (of_ℕ 1024))

  -- The loop; a number that `sscanf` does not find is read all the same.
  unfoldable pub memory_lines : List Text → ℕ → Outcome (List (Metric D) × ℕ)
  unfolding mem_field sscanf_ulongs
  memory_lines [] total = ok ([], total)
  memory_lines (line ∷ lines) total = elim (mem_field line) [
    | none ↦ memory_lines lines total
    | some f ↦ elim (sscanf_ulongs (codes f.label) 1 line) [
      | [] ↦ err undefined
      | n ∷ _ ↦ memory_lines lines (if f.is_free then (total + n) % u64 else total) >>= λ r.
          ok (kibibytes f.meter n ∷ r.0, r.1)
    ]
  ]

  unfoldable pub memory_stats : Option (List Text) → Outcome (List (Metric D))
  unfolding memory_lines
  memory_stats none = ok []
  memory_stats (some lines) =
      memory_lines lines 0 >>= λ r. ok (r.0 ++ kibibytes "mem.totalFree" r.1 ∷ [])
