-- ===== src/Util/RoundTrip.antt =====
-- lib/util/src/util.cpp: what is printed in the formats of tags and of key and value lines is read back.
use atlas_system_agent.Base.{
  ℕ, ◌^◌, ◌<◌, ◌≡◌, refl, ap, ◌∙◌, true, false, some, List, [], ◌∷◌, ◌++◌, map, Text, eqb, ltb,
  text_eq, is_space, All, All-append, arith,
}
use atlas_system_agent.Base.Dict.{assign}
use atlas_system_agent.Base.Int.{pos}
use atlas_system_agent.Base.Numbers.{decimal, scan_number, skip_space}
use atlas_system_agent.Base.Numbers.Decimal.{scan_number-decimal}
use atlas_system_agent.StrSplit.{StrSplit, IsStrSplit, allow_empty}
use atlas_system_agent.Cgroup.Fields.{split_equals}
use atlas_system_agent.Util.{
  comma_blank, TagMap, add_tag, add_tags, parse_tags, token, scan_kv, scan_value, KeyValues,
  parse_kv_lines,
}

-- A key of a file: not empty and without blanks.
abbrev pub IsKey : Text → Type 0
IsKey [] = true ≡ false
IsKey (c ∷ key) = (is_space c ≡ false) × All (λ x. is_space x ≡ false) key

-- A line with the key and the number.
abbrev pub kv_line : (Text × ℕ) → Text
kv_line (key, n) = key ++ 32 ∷ (decimal n ++ 10 ∷ [])

pub token-append :
    (key : Text) (c : ℕ) (s : Text)
    → All (λ x. is_space x ≡ false) key
    → is_space c ≡ true
    → token (key ++ c ∷ s) ≡ (key, c ∷ s)
unfolding token
token-append [] c s h e = rw e refl
token-append (x ∷ key) c s h e = rw (token-append key c s h.1 e, h.0) refl

pub skip_space-solid : (k : ℕ) (s : Text) → is_space k ≡ false → skip_space (k ∷ s) ≡ k ∷ s
unfolding skip_space
skip_space-solid k s h = rw h refl

scan_kv_at :
    (buffer rest : Text) (k : ℕ) (key : Text) (n : ℕ)
    → skip_space buffer ≡ buffer
    → token buffer ≡ (k ∷ key, rest)
    → scan_number rest ≡ some (false, n)
    → n < 2 ^ 63
    → scan_kv buffer ≡ some (k ∷ key, pos n)
unfolding scan_kv
scan_kv_at buffer rest k key n s t v fits =
    let small : ltb n (2 ^ 63) ≡ true = ground arith in
    rw (ap token s ∙ t) (rw (v, small, scan_value) refl)

scan_kv-kv_line :
    (key : Text) (n : ℕ) → IsKey key → n < 2 ^ 63 → scan_kv (kv_line (key, n)) ≡ some (key, pos n)
scan_kv-kv_line [] n h fits = cc
scan_kv-kv_line (k ∷ key) n (solid, h) fits =
    scan_kv_at (kv_line (k ∷ key, n)) (32 ∷ (decimal n ++ 10 ∷ [])) k key n
      (skip_space-solid k (key ++ 32 ∷ (decimal n ++ 10 ∷ [])) solid)
      (token-append (k ∷ key) 32 (decimal n ++ 10 ∷ []) (solid, h) refl)
      (scan_number-decimal n 10 [] refl) fits

-- The entries, put into the map one after the other.
abbrev pub assign_all : List (Text × ℕ) → KeyValues → KeyValues
assign_all [] stats = stats
assign_all ((key, n) ∷ entries) stats = assign_all entries (assign key (pos n) stats)

abbrev pub IsEntry : (Text × ℕ) → Type 0
IsEntry (key, n) = IsKey key × (n < 2 ^ 63)

-- The lines of keys with numbers that fit `int64_t` are read back in order, a later value of a key in
-- place of an earlier one.
pub parse_kv_lines_round_trip :
    (entries : List (Text × ℕ)) (stats : KeyValues)
    → All IsEntry entries
    → parse_kv_lines (map kv_line entries) stats ≡ assign_all entries stats
unfolding parse_kv_lines
parse_kv_lines_round_trip [] stats h = refl
parse_kv_lines_round_trip ((key, n) ∷ entries) stats ((k, fits), h) =
    rw (scan_kv-kv_line key n k fits, parse_kv_lines)
      (parse_kv_lines_round_trip entries (assign key (pos n) stats) h)

-- A tag that can be printed: its key has no equals sign, and neither part is empty or has a
-- delimiter.
abbrev pub Plain : Text → Type 0
Plain [] = true ≡ false
Plain (c ∷ s) = All (λ x. comma_blank x ≡ false) (c ∷ s)

abbrev pub IsTag : (Text × Text) → Type 0
IsTag (key, value) = Plain key × (All (λ x. eqb x b'=' ≡ false) key × Plain value)

abbrev pub print_tag : (Text × Text) → Text
print_tag (key, value) = key ++ b'=' ∷ value

-- The tags behind the first one follow a comma each.
abbrev pub print_tags : (Text × Text) → TagMap → Text
print_tags t [] = print_tag t
print_tags t (u ∷ tags) = print_tag t ++ b',' ∷ print_tags u tags

abbrev pub assign_tags : TagMap → TagMap → TagMap
assign_tags [] tags = tags
assign_tags ((key, value) ∷ more) tags = assign_tags more (assign key value tags)

split_equals-append :
    (key value : Text)
    → All (λ x. eqb x b'=' ≡ false) key
    → split_equals (key ++ b'=' ∷ value) ≡ some (key, value)
unfolding split_equals
split_equals-append [] value h = refl
split_equals-append (c ∷ key) value h = rw (h.0, split_equals-append key value h.1) refl

add_tag-print_tag :
    (key value : Text) (tags : TagMap)
    → IsTag (key, value)
    → add_tag (print_tag (key, value)) tags ≡ assign key value tags
unfolding add_tag
add_tag-print_tag [] value tags h = cc
add_tag-print_tag (k ∷ key) [] tags h = cc
add_tag-print_tag (k ∷ key) (v ∷ value) tags (plain, (clear, _)) =
    rw (split_equals-append (k ∷ key) (v ∷ value) clear, add_tag) refl

print_tag-clear : (t : Text × Text) → IsTag t → All (λ x. comma_blank x ≡ false) (print_tag t)
print_tag-clear ([], value) h = cc
print_tag-clear (k ∷ key, []) h = cc
print_tag-clear (k ∷ key, v ∷ value) (plain, (clear, full)) =
    All-append (λ x. comma_blank x ≡ false) (k ∷ key) (b'=' ∷ v ∷ value) plain (refl, full)

add_tags-split :
    (split : StrSplit)
    → IsStrSplit split
    → (t : Text × Text) (more tags : TagMap) → IsTag t
    → All IsTag more
    → add_tags (split comma_blank allow_empty (print_tags t more)) tags
      ≡ assign_tags (t ∷ more) tags
unfolding add_tags
add_tags-split split laws (key, value) [] tags h hs =
    rw
      (
        laws.last_piece comma_blank allow_empty (print_tag (key, value))
            (print_tag-clear (key, value) h),
        add_tags,
      )
      (add_tag-print_tag key value tags h)
add_tags-split split laws (key, value) (u ∷ more) tags h (hu, hs) =
    rw
      (
        laws.first_piece comma_blank allow_empty (print_tag (key, value)) b',' (print_tags u more)
            (print_tag-clear (key, value) h) refl,
        add_tags,
        add_tag-print_tag key value tags h,
      )
      (add_tags-split split laws u more (assign key value tags) hu hs)

-- Tags printed as key=value with commas between them are read back, a later value of a key in place
-- of an earlier one, for any `absl::StrSplit` with the documented laws.
pub parse_tags_round_trip :
    (split : StrSplit)
    → IsStrSplit split
    → (t : Text × Text) (more : TagMap) → IsTag t
    → All IsTag more
    → parse_tags split (print_tags t more) ≡ assign_tags (t ∷ more) []
unfolding parse_tags
parse_tags_round_trip split laws t more h hs = add_tags-split split laws t more [] h hs
