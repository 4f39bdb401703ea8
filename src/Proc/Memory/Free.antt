-- ===== src/Proc/Memory/Free.antt =====
-- proc.cpp: what `memory_stats` reads from a file in the format of the kernel.
use atlas_system_agent.Base.{
  ℕ, ◌+◌, ◌%◌, ◌<◌, ◌≡◌, refl, ap, ◌∙◌, true, false, none, some, List, [], ◌∷◌, ◌++◌, map, Text,
  codes, if◌then◌else◌, All, arith, replicate, zero, suc,
}
use atlas_system_agent.Base.Numbers.{u64}
use atlas_system_agent.Base.Outcome.{ok, ◌>>=◌}
use atlas_system_agent.Metrics.{Double, Metric}
use atlas_system_agent.Stdio.{sscanf_ulongs, scan_ulongs}
use atlas_system_agent.Stdio.Decimal.{
  spaced, scan_ulongs-spaced, scan_ulongs-blank, scan_literal-append,
}
use atlas_system_agent.Util.Prefix.{starts_with-is_prefix}
use atlas_system_agent.Proc.Memory.{MemField, mem_field, memory_lines, memory_stats, kibibytes}

-- The keys that the collector knows.
pub data MemKey : Type 0 where
  mem_total mem_free mem_available swap_free swap_total buffers cached shmem : MemKey

abbrev pub field_of : MemKey → MemField
field_of mem_total = record { label = "MemTotal:"; meter = "mem.totalReal"; is_free = false }
field_of mem_free = record { label = "MemFree:"; meter = "mem.freeReal"; is_free = true }
field_of mem_available = record {
  label = "MemAvailable:";
  meter = "mem.availReal";
  is_free = false;
}
field_of swap_free = record { label = "SwapFree:"; meter = "mem.availSwap"; is_free = true }
field_of swap_total = record { label = "SwapTotal:"; meter = "mem.totalSwap"; is_free = false }
field_of buffers = record { label = "Buffers:"; meter = "mem.buffer"; is_free = false }
field_of cached = record { label = "Cached:"; meter = "mem.cached"; is_free = false }
field_of shmem = record { label = "Shmem:"; meter = "mem.shared"; is_free = false }

-- A line of the file: a known key and its number behind some more blanks, or another line.
pub data Entry : Type 0 where
  known : MemKey → ℕ → ℕ → Entry
  other : (line : Text) → mem_field line ≡ none → Entry

-- What ends a line: the unit, and the newline that `fgets` keeps.
abbrev pub kb_newline : Text
kb_newline = codes "kB" ++ 10 ∷ []

abbrev pub line_of : Entry → Text
line_of (known k blanks n) =
    codes (field_of k).label ++ (replicate blanks 32 ++ spaced (n ∷ []) (32 ∷ kb_newline))
line_of (other line e) = line

abbrev pub Fits : Entry → Type 0
Fits (known k blanks n) = n < u64
Fits (other line e) = Unit {0}

-- The free memory and the free swap space among the entries.
abbrev pub free_kibibytes : List Entry → ℕ
free_kibibytes [] = 0
free_kibibytes (known mem_free blanks n ∷ es) = n + free_kibibytes es
free_kibibytes (known swap_free blanks n ∷ es) = n + free_kibibytes es
free_kibibytes (_ ∷ es) = free_kibibytes es

mem_field-known :
    (k : MemKey) (rest : Text) → mem_field (codes (field_of k).label ++ rest) ≡ some (field_of k)
unfolding mem_field
mem_field-known mem_total rest = simp starts_with-is_prefix
mem_field-known _ rest = simp starts_with-is_prefix

scan_ulongs-blanks :
    (k blanks : ℕ) (s : Text) → scan_ulongs k (replicate blanks 32 ++ s) ≡ scan_ulongs k s
scan_ulongs-blanks k zero s = refl
scan_ulongs-blanks k (suc b) s =
    scan_ulongs-blank k (replicate b 32 ++ s) ∙ scan_ulongs-blanks k b s

sscanf_known :
    (k : MemKey) (blanks n : ℕ)
    → n < u64
    → sscanf_ulongs (codes (field_of k).label) 1 (line_of (known k blanks n)) ≡ n ∷ []
unfolding sscanf_ulongs
sscanf_known k blanks n fits =
    rw
      (
        scan_literal-append (codes (field_of k).label)
            (replicate blanks 32 ++ spaced (n ∷ []) (32 ∷ kb_newline)),
        sscanf_ulongs,
      )
      (scan_ulongs-blanks 1 blanks (spaced (n ∷ []) (32 ∷ kb_newline))
        ∙ scan_ulongs-spaced (n ∷ []) 32 kb_newline refl (fits, tt))

module _ {D : Type 0} ⦃fp : Double D⦄ where
  -- The gauges of the known lines, in the order of the file.
  abbrev pub readings : List Entry → List (Metric D)
  readings [] = []
  readings (known k blanks n ∷ es) = kibibytes (field_of k).meter n ∷ readings es
  readings (other line e ∷ es) = readings es

  memory_lines_known :
      (k : MemKey) (blanks n total : ℕ) (lines : List Text)
      → n < u64
      → memory_lines {D = D} (line_of (known k blanks n) ∷ lines) total ≡ (
          memory_lines {D = D} lines (if (field_of k).is_free then (total + n) % u64 else total)
          >>= λ r. ok (kibibytes (field_of k).meter n ∷ r.0, r.1))
  unfolding memory_lines
  memory_lines_known k blanks n total lines fits =
      rw
        (mem_field-known k (replicate blanks 32 ++ spaced (n ∷ []) (32 ∷ kb_newline)), memory_lines)
        (rw (sscanf_known k blanks n fits) refl)

  memory_lines_next :
      (k : MemKey) (blanks n total total' : ℕ) (es : List Entry)
      → n < u64
      → (if (field_of k).is_free then (total + n) % u64 else total) ≡ total'
      → memory_lines (map line_of es) total' ≡ ok (readings es, (total' + free_kibibytes es) % u64)
      → memory_lines (map line_of (known k blanks n ∷ es)) total
        ≡ ok (readings (known k blanks n ∷ es), (total' + free_kibibytes es) % u64)
  memory_lines_next k blanks n total total' es fit next ih =
      memory_lines_known k blanks n total (map line_of es) fit
      ∙ ap (λ r. r >>= λ r. ok (kibibytes (field_of k).meter n ∷ r.0, r.1))
          (ap (memory_lines (map line_of es)) next ∙ ih)

  memory_lines_entries :
      (es : List Entry) (total : ℕ)
      → total < u64
      → All Fits es
      → memory_lines (map line_of es) total ≡ ok (readings es, (total + free_kibibytes es) % u64)
  unfolding memory_lines
  memory_lines_entries [] total small fits = ap (λ t. ok ([], t)) (omega arith)
  memory_lines_entries (other line e ∷ es) total small (fit, fits) =
      rw (e, memory_lines) (memory_lines_entries es total small fits)
  memory_lines_entries (known mem_free blanks n ∷ es) total small (fit, fits) =
      memory_lines_next mem_free blanks n total ((total + n) % u64) es fit refl
        (memory_lines_entries es ((total + n) % u64) (omega arith) fits)
      ∙ ap (λ t. ok (readings (known mem_free blanks n ∷ es), t)) (omega arith)
  memory_lines_entries (known swap_free blanks n ∷ es) total small (fit, fits) =
      memory_lines_next swap_free blanks n total ((total + n) % u64) es fit refl
        (memory_lines_entries es ((total + n) % u64) (omega arith) fits)
      ∙ ap (λ t. ok (readings (known swap_free blanks n ∷ es), t)) (omega arith)
  memory_lines_entries (known k blanks n ∷ es) total small (fit, fits) =
      memory_lines_next k blanks n total total es fit refl
        (memory_lines_entries es total small fits)

  -- Of a file of other lines and of known ones, a key, blanks, a number that fits 64 bits and " kB"
  -- up to the newline, every known line becomes its gauge in bytes, wherever it stands, and the last
  -- gauge is the free memory and the free swap space, modulo 2 ^ 64.
  pub memory_stats_entries :
      (es : List Entry)
      → All Fits es
      → memory_stats (some (map line_of es))
        ≡ ok (readings es ++ kibibytes "mem.totalFree" (free_kibibytes es % u64) ∷ [])
  unfolding memory_stats
  memory_stats_entries es fits =
      ap (λ r. r >>= λ r. ok (r.0 ++ kibibytes "mem.totalFree" r.1 ∷ []))
        (memory_lines_entries es 0 (omega arith) fits ∙ ap (λ t. ok (readings es, t)) (omega arith))
