-- ===== src/Proc/Stat.antt =====
-- proc.cpp: `ParseProcStatFile`, on the fields of the lines.
use atlas_system_agent.Base.{
  ℕ, ◌≡◌, true, not, Option, none, some, List, [], ◌∷◌, Text, codes, eqb, if◌then◌else◌, length,
  All, Bool-cases, inl, inr, eqb_iff,
}
use atlas_system_agent.StrSplit.{StrSplit}
use atlas_system_agent.Util.{starts_with, read_lines_fields}

abbrev pub expected_cpu_fields : ℕ
expected_cpu_fields = 11

-- The loop, which returns `none` at the first malformed line.
unfoldable pub cpu_lines : List (List Text) → Option (List (List Text))
cpu_lines [] = some []
cpu_lines ([] ∷ lines) = cpu_lines lines
cpu_lines ((key ∷ fs) ∷ lines) =
    let rest = cpu_lines lines in
    if not (starts_with key (codes "cpu"))
    then rest
    else if not (eqb (length (key ∷ fs)) expected_cpu_fields)
    then none
    else elim rest [ none ↦ none | some ls ↦ some ((key ∷ fs) ∷ ls) ]

unfoldable pub parse_proc_stat_file : StrSplit → Option (List Text) → List (List Text)
unfolding read_lines_fields cpu_lines
parse_proc_stat_file split content = elim (cpu_lines (read_lines_fields split content)) [
  | none ↦ []
  | some ls ↦ ls
]

abbrev pub IsCpuLine : List Text → Type 0
IsCpuLine [] = ⊥
IsCpuLine (key ∷ fs) =
    (starts_with key (codes "cpu") ≡ true) × (length (key ∷ fs) ≡ expected_cpu_fields)

abbrev AllCpuLines : Option (List (List Text)) → Type 0
AllCpuLines none = Unit
AllCpuLines (some ls) = All IsCpuLine ls

cpu_lines-AllCpuLines : (lines : List (List Text)) → AllCpuLines (cpu_lines lines)
unfolding cpu_lines
cpu_lines-AllCpuLines [] = tt
cpu_lines-AllCpuLines ([] ∷ lines) = cpu_lines-AllCpuLines lines
cpu_lines-AllCpuLines ((key ∷ fs) ∷ lines) = elim (Bool-cases (starts_with key (codes "cpu"))) [
  | inr other ↦ rw other (cpu_lines-AllCpuLines lines)
  | inl cpu ↦ elim (Bool-cases (eqb (length (key ∷ fs)) expected_cpu_fields)) [
    | inr odd ↦ rw (cpu, odd) tt
    | inl full ↦
        rw (cpu, full)
          (keep (cpu_lines lines) (cpu_lines-AllCpuLines lines) (cpu, (eqb_iff _ _).0 full))
  ]
]
  where
    keep :
        (rest : Option (List (List Text)))
        → AllCpuLines rest
        → IsCpuLine (key ∷ fs)
        → AllCpuLines (elim rest [ none ↦ none | some ls ↦ some ((key ∷ fs) ∷ ls) ])
    keep none h c = tt
    keep (some ls) h c = (c, h)

pub parse_proc_stat_file-IsCpuLine :
    (split : StrSplit) (content : Option (List Text))
    → All IsCpuLine (parse_proc_stat_file split content)
unfolding parse_proc_stat_file
parse_proc_stat_file-IsCpuLine split content =
    settle (cpu_lines (read_lines_fields split content))
      (cpu_lines-AllCpuLines (read_lines_fields split content))
  where
    settle :
        (r : Option (List (List Text)))
        → AllCpuLines r
        → All IsCpuLine (elim r [ none ↦ [] | some ls ↦ ls ])
    settle none h = tt
    settle (some ls) h = h
