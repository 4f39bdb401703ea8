-- ===== src/StrSplit.antt =====
-- `absl::StrSplit`, which is a parameter: a function with the documented laws of its pieces.
use atlas_system_agent.Base.{
  ℕ, ◌≡◌, Bool, true, false, not, List, [], ◌∷◌, ◌++◌, Text, All, if◌then◌else◌, eqb, ◌||◌,
  is_space, ◌∙◌, append-nil, append_assoc,
}

-- A test of the delimiter, a test of the pieces to keep, and the text.
abbrev pub StrSplit : Type 0
StrSplit = (ℕ → Bool) → (Text → Bool) → Text → List Text

-- The piece up to the first delimiter comes first, if it is kept; the last piece ends the text.
pub record IsStrSplit (split : StrSplit) : Type 0 where
  pub last_piece :
      (delim : ℕ → Bool) (keep : Text → Bool) (t : Text)
      → All (λ c. delim c ≡ false) t
      → split delim keep t ≡ (if keep t then t ∷ [] else [])
  pub first_piece :
      (delim : ℕ → Bool) (keep : Text → Bool) (t : Text) (c : ℕ) (s : Text)
      → All (λ c. delim c ≡ false) t
      → delim c ≡ true
      → split delim keep (t ++ c ∷ s)
        ≡ (if keep t then t ∷ split delim keep s else split delim keep s)

-- The predicates `absl::AllowEmpty` (the default), `absl::SkipEmpty` and `absl::SkipWhitespace`.
abbrev pub allow_empty : Text → Bool
allow_empty t = true

abbrev pub skip_empty : Text → Bool
skip_empty [] = false
skip_empty (_ ∷ _) = true

abbrev pub skip_whitespace : Text → Bool
skip_whitespace [] = false
skip_whitespace (c ∷ s) = not (is_space c) || skip_whitespace s

-- The delimiters `' '`, `absl::ByAnyChar(" \t\n")` and `absl::ByAnyChar(" \t")`.
abbrev pub blank : ℕ → Bool
blank c = eqb c b' '

abbrev pub blank_tab_newline : ℕ → Bool
blank_tab_newline c = eqb c b' ' || (eqb c b'\t' || eqb c b'\n')

abbrev pub blank_tab : ℕ → Bool
blank_tab c = eqb c b' ' || eqb c b'\t'

-- A function that satisfies the laws.
split_onto : Text → StrSplit
split_onto piece delim keep [] = if keep piece then piece ∷ [] else []
split_onto piece delim keep (c ∷ s) =
    let cut = split_onto [] delim keep s in
    let longer = split_onto (piece ++ c ∷ []) delim keep s in
    if delim c then (if keep piece then piece ∷ cut else cut) else longer

unfoldable pub str_split : StrSplit
unfolding split_onto
str_split = split_onto []

split_onto-last :
    (delim : ℕ → Bool) (keep : Text → Bool) (p t : Text)
    → All (λ c. delim c ≡ false) t
    → split_onto p delim keep t ≡ (if keep (p ++ t) then (p ++ t) ∷ [] else [])
unfolding split_onto
split_onto-last delim keep p [] h = rw append-nil
split_onto-last delim keep p (c ∷ t) h =
    rw h.0 (split_onto-last delim keep (p ++ c ∷ []) t h.1 ∙ rw append_assoc)

split_onto-first :
    (delim : ℕ → Bool) (keep : Text → Bool) (p t : Text) (c : ℕ) (s : Text)
    → All (λ c. delim c ≡ false) t
    → delim c ≡ true
    → split_onto p delim keep (t ++ c ∷ s) ≡ (
        if keep (p ++ t) then (p ++ t) ∷ split_onto [] delim keep s else split_onto [] delim keep s)
unfolding split_onto
split_onto-first delim keep p [] c s h d = rw (append-nil, d)
split_onto-first delim keep p (x ∷ t) c s h d =
    rw h.0 (split_onto-first delim keep (p ++ x ∷ []) t c s h.1 d ∙ rw append_assoc)

pub str_split-IsStrSplit : IsStrSplit str_split
unfolding str_split
str_split-IsStrSplit = record {
  last_piece = λ delim keep t h. split_onto-last delim keep [] t h;
  first_piece = λ delim keep t c s h d. split_onto-first delim keep [] t c s h d;
}
