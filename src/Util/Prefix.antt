-- ===== src/Util/Prefix.antt =====
-- util.cpp: `starts_with` is the test for a prefix, by the bytes.
use atlas_system_agent.Base.{
  ◌≡◌, refl, Bool, true, false, ◌&&◌, [], ◌∷◌, Text, eqb, text_beq, arith,
}
use atlas_system_agent.Util.{starts_with}

abbrev pub is_prefix : Text → Text → Bool
is_prefix [] s = true
is_prefix (p ∷ prefix) [] = false
is_prefix (p ∷ prefix) (c ∷ s) = eqb c p && is_prefix prefix s

pub starts_with-is_prefix : (s prefix : Text) → starts_with s prefix ≡ is_prefix prefix s
unfolding starts_with text_beq
starts_with-is_prefix [] [] = refl
starts_with-is_prefix (c ∷ s) [] = ground arith
starts_with-is_prefix [] (p ∷ prefix) = ground arith
starts_with-is_prefix (c ∷ s) (p ∷ prefix) = ground (arith, starts_with-is_prefix s prefix)
