-- ===== src/Tests/Texts.antt =====
-- lib/util: a file of keys and values, and the tags of a command line.
use atlas_system_agent.Base.{ℕ, ◌≡◌, refl, List, [], ◌∷◌, Text, codes, arith, map, text_eq}
use atlas_system_agent.StrSplit.{str_split, str_split-IsStrSplit}
use atlas_system_agent.Util.{parse_kv_lines, parse_tags, TagMap}
use atlas_system_agent.Util.RoundTrip.{
  kv_line, assign_all, print_tags, assign_tags, parse_kv_lines_round_trip, parse_tags_round_trip,
}

abbrev entries : List (Text × ℕ)
entries = (codes "pg", 12) ∷ (codes "sw", 0) ∷ []

parse_kv_lines_round_trip_example : parse_kv_lines (map kv_line entries) [] ≡ assign_all entries []
parse_kv_lines_round_trip_example =
    parse_kv_lines_round_trip entries []
      (((refl, (refl, tt)), omega arith), (((refl, (refl, tt)), omega arith), tt))

abbrev tags : TagMap
tags = (codes "b", codes "2") ∷ []

parse_tags_round_trip_example :
    parse_tags str_split (print_tags (codes "a", codes "1") tags)
    ≡ assign_tags ((codes "a", codes "1") ∷ tags) []
parse_tags_round_trip_example =
    parse_tags_round_trip str_split str_split-IsStrSplit (codes "a", codes "1") tags
      ((refl, tt), ((refl, tt), (refl, tt))) (((refl, tt), ((refl, tt), (refl, tt))), tt)
