-- ===== src/Perfspect/Instance.antt =====
-- lib/collectors/perfspect/src/perfspect.cpp: `ParseProductName`, `IsValidInstance` and `Create`.
pub mod Names
use atlas_system_agent.Base.{
  ℕ, suc, ◌+◌, ◌-◌, Bool, true, false, ◌||◌, ◌&&◌, Option, none, some, List, [], ◌∷◌, Text, eqb,
  ltb, leb, if◌then◌else◌, is_digit, length, get_elem?, drop,
}
use atlas_system_agent.Perfspect.{Perfspect, new_perfspect}

-- `std::string::find`: the first position of a byte.
unfoldable pub find_first : (ℕ → Bool) → Text → Option ℕ
find_first p [] = none
find_first p (c ∷ s) =
    let rest : Option ℕ = elim (find_first p s) [ none ↦ none | some i ↦ some (suc i) ] in
    if p c then some 0 else rest

abbrev pub is_dot : ℕ → Bool
is_dot c = eqb c b'.'

-- amdSymbol, intelSymbol
abbrev pub is_processor : ℕ → Bool
is_processor c = eqb c b'a' || eqb c b'i'

-- `find_first_of(symbols, 2)`
abbrev pub find_processor : Text → Option ℕ
unfolding find_first
find_processor s = elim (find_first is_processor (drop 2 s)) [ none ↦ none | some i ↦ some (i + 2) ]

-- The byte at a position that `find` gave.
abbrev pub byte_at : Text → ℕ → ℕ
byte_at s i = elim (get_elem? s i) [ none ↦ 0 | some c ↦ c ]

unfoldable pub parse_product_name : Text → Option (ℕ × ℕ)
unfolding find_first
parse_product_name s =
    let found : Option (ℕ × ℕ) = elim (find_first is_dot s) [
      | none ↦ none
      | some dot ↦ elim (find_processor s) [
        | none ↦ none
        | some p ↦ if ltb p dot then some (byte_at s 1, byte_at s p) else none
      ]
    ] in
    if ltb (length s) 3 then none else found

-- `PerfspectConstants::minGeneration`
abbrev pub min_generation : ℕ
min_generation = 7

-- Of the byte of the generation, `std::from_chars` reads a digit.
abbrev pub is_valid_generation : ℕ → Bool
is_valid_generation c = is_digit c && leb min_generation (c - 48)

-- Is the binary there, and the first line of the product's name, if it could be read.
unfoldable pub is_valid_instance : Bool → Option Text → Option (ℕ × ℕ)
unfolding parse_product_name
is_valid_instance binary product_name =
    let parsed : Option (ℕ × ℕ) = elim product_name [
      | none ↦ none
      | some name ↦ elim (parse_product_name name) [
        | none ↦ none
        | some (generation, processor) ↦
            if is_valid_generation generation && is_processor processor
            then some (generation, processor)
            else none
      ]
    ] in
    if binary then parsed else none

unfoldable pub create : Bool → Option Text → Option Perfspect
unfolding is_valid_instance new_perfspect
create binary product_name = elim (is_valid_instance binary product_name) [
  | none ↦ none
  | some info ↦ some new_perfspect
]
