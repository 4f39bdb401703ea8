-- ===== src/Util.antt =====
-- lib/util/src/util.cpp: the parsers of tags, numbers and key and value lines. A file is what its reads
-- give; `none` is a file that cannot be opened.
pub mod RoundTrip
pub mod Prefix
use atlas_system_agent.Base.{
  ℕ, ◌+◌, ◌-◌, ◌*◌, ◌^◌, Bool, true, false, ◌||◌, ◌&&◌, not, Option, none, some, List, [], ◌∷◌,
  ◌++◌, map, Text, String, codes, eqb, ltb, leb, if◌then◌else◌, text_eq, is_space, length, take,
  text_beq,
}
use atlas_system_agent.Base.Dict.{assign}
use atlas_system_agent.Base.Int.{ℤ, pos, negsuc}
use atlas_system_agent.Base.Numbers.{strtoul, scan_number, read_signed, skip_space}
use atlas_system_agent.StrSplit.{StrSplit, allow_empty, skip_empty, blank}
use atlas_system_agent.Cgroup.Fields.{split_equals}

-- The prefix's length is compared first, and then its bytes.
unfoldable pub starts_with : Text → Text → Bool
starts_with line prefix =
    if ltb (length line) (length prefix) then false else text_beq (take (length prefix) line) prefix

-- The delimiters `absl::ByAnyChar(", ")`.
abbrev pub comma_blank : ℕ → Bool
comma_blank c = eqb c b',' || eqb c b' '

abbrev pub TagMap : Type 0
TagMap = List (Text × Text)

-- A field of the tags: kept where it has a key, an equals sign and a value.
unfoldable pub add_tag : Text → TagMap → TagMap
unfolding split_equals
add_tag field tags = elim (split_equals field) [
  | some (k ∷ key, v ∷ value) ↦ assign (k ∷ key) (v ∷ value) tags
  | _ ↦ tags
]

unfoldable pub add_tags : List Text → TagMap → TagMap
unfolding add_tag
add_tags [] tags = tags
add_tags (f ∷ fields) tags = add_tags fields (add_tag f tags)

unfoldable pub parse_tags : StrSplit → Text → TagMap
unfolding add_tags
parse_tags split s = add_tags (split comma_blank allow_empty s) []

-- The first token, and the text behind it.
unfoldable pub token : Text → Text × Text
token [] = ([], [])
token (c ∷ s) = let (t, rest) = token s in if is_space c then ([], c ∷ s) else (c ∷ t, rest)

-- `%lld` of `sscanf`, on what the number parser reads: a value out of range becomes the nearest.
abbrev pub to_int64 : Bool → ℕ → ℤ
to_int64 minus n =
    if minus
    then (if eqb n 0 then pos 0 else if leb n (2 ^ 63) then negsuc (n - 1) else negsuc (2 ^ 63 - 1))
    else (if ltb n (2 ^ 63) then pos n else pos (2 ^ 63 - 1))

abbrev pub KeyValues : Type 0
KeyValues = List (Text × ℤ)

-- `sscanf(buffer, "%s %lld", key, &value)`, where it reads both: the number behind the token.
unfoldable pub scan_value : Text × Text → Option (Text × ℤ)
unfolding skip_space read_signed
scan_value ([], rest) = none
scan_value (k ∷ key, rest) = elim (scan_number rest) [
  | none ↦ none
  | some (minus, n) ↦ some (k ∷ key, to_int64 minus n)
]

unfoldable pub scan_kv : Text → Option (Text × ℤ)
unfolding token scan_value skip_space
scan_kv buffer = scan_value (token (skip_space buffer))

-- The loop of `parse_kv_from_file`, on the buffers that `fgets` fills.
unfoldable pub parse_kv_lines : List Text → KeyValues → KeyValues
unfolding scan_kv
parse_kv_lines [] stats = stats
parse_kv_lines (buffer ∷ buffers) stats = elim (scan_kv buffer) [
  | none ↦ parse_kv_lines buffers stats
  | some (key, value) ↦ parse_kv_lines buffers (assign key value stats)
]

unfoldable pub parse_kv_from_file : Option (List Text) → KeyValues → KeyValues
unfolding parse_kv_lines
parse_kv_from_file none stats = stats
parse_kv_from_file (some buffers) stats = parse_kv_lines buffers stats

-- `read_num_from_file`, on the rest of the text from the front; an empty file leaves -1.
unfoldable pub read_num_from_file : Option Text → ℤ
unfolding skip_space read_signed
read_num_from_file none = negsuc 0
read_num_from_file (some s) = elim (scan_number s) [
  | none ↦ negsuc 0
  | some (minus, n) ↦ to_int64 minus n
]

-- `read_num_vector_from_file`, on the first line. The conversion to `int64_t` wraps around.
abbrev wrap_int64 : ℕ → ℤ
wrap_int64 n = if ltb n (2 ^ 63) then pos n else negsuc (2 ^ 64 - 1 - n)

unfoldable pub read_num_vector_from_file : StrSplit → Option Text → List ℤ
unfolding strtoul
read_num_vector_from_file split none = []
read_num_vector_from_file split (some line) =
    map (λ field. wrap_int64 (strtoul field)) (split blank skip_empty line)

-- `read_lines_fields`
unfoldable pub read_lines_fields : StrSplit → Option (List Text) → List (List Text)
read_lines_fields split none = []
read_lines_fields split (some lines) = map (split blank skip_empty) lines
