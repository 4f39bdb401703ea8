-- ===== src/Cgroup/Fields.antt =====
-- cgroup.cpp: what the parsers of io.stat and io.max share.
use atlas_system_agent.Base.{
  Bool, true, false, Option, none, some, List, [], ◌∷◌, Text, eqb, if◌then◌else◌,
}

-- `pos = field.find('=')`, `field.substr(0, pos)` and `field.substr(pos + 1)`; `none` for `npos`.
unfoldable pub split_equals : Text → Option (Text × Text)
split_equals [] = none
split_equals (c ∷ s) =
    let rest = split_equals s in
    if eqb c b'='
    then some ([], s)
    else elim rest [ none ↦ none | some (key, value) ↦ some (c ∷ key, value) ]

-- `std::from_chars` into a `double`: the value of the longest number at the front, or `none` for an
-- error code.
abbrev pub ParseDouble : Type 0 → Type 0
ParseDouble D = Text → Option D

abbrev pub is_none : {A : Type 0} → Option A → Bool
is_none none = true
is_none (some _) = false

abbrev pub to_list : {A : Type 0} → Option A → List A
to_list none = []
to_list (some a) = a ∷ []
