-- ===== src/Proc/Netstat/Columns.antt =====
-- proc.cpp: `netstat_stats` finds its columns wherever they stand in the table.
use atlas_system_agent.Base.{◌||◌, List, [], ◌∷◌, Text, codes, if◌then◌else◌, ◌==◌, text_eq}
use atlas_system_agent.Base.Int.{ℤ, ◌+ℤ◌}
use atlas_system_agent.StrSplit.{StrSplit}
use atlas_system_agent.Proc.Netstat.{SimpleAtoi, to_int64_or_zero, Ecn}

-- A table: its columns, with their headers and values.
abbrev pub Table : Type 0
Table = List (Text × Text)

abbrev pub headers_of : Table → List Text
headers_of [] = []
headers_of ((header, value) ∷ table) = header ∷ headers_of table

abbrev pub values_of : Table → List Text
values_of [] = []
values_of ((header, value) ∷ table) = value ∷ values_of table

-- The value of the last column with the header, or else the given one.
unfoldable pub last_of : SimpleAtoi → Text → Table → ℤ → ℤ
last_of atoi name [] n = n
last_of atoi name ((header, value) ∷ table) n =
    last_of atoi name table (if header == name then to_int64_or_zero atoi value else n)

-- The sum of the values of the columns with either header, onto the given one.
unfoldable pub sum_of : SimpleAtoi → Text → Text → Table → ℤ → ℤ
sum_of atoi one two [] n = n
sum_of atoi one two ((header, value) ∷ table) n =
    sum_of atoi one two table
      (if header == one || header == two then n +ℤ to_int64_or_zero atoi value else n)

abbrev pub ecn_of : SimpleAtoi → Table → Ecn → Ecn
ecn_of atoi table e = record {
  no_ect = last_of atoi (codes "InNoECTPkts") table e.no_ect;
  ect = sum_of atoi (codes "InECT1Pkts") (codes "InECT0Pkts") table e.ect;
  congested = last_of atoi (codes "InCEPkts") table e.congested;
}
