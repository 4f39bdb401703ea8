-- ===== src/Base/Dict.antt =====
-- A map as an association list: `find`, the assignment `m[k] = v`, and `emplace`.
use mathlib.Core.Path.{◌≡◌, refl}
use mathlib.Core.List.{List, [], ◌∷◌}
use mathlib.Core.Option.{Option, none, some}
use native.Mathlib.Omega.{arith}
use atlas_system_agent.Base.Lists.{All}
use atlas_system_agent.Base.Tests.{if◌then◌else◌, Eq, ◌==◌}

module _ {ℓ} {K : Type 0} {V : Type ℓ} ⦃e : Eq K⦄ where
  unfoldable pub find : K → List (K × V) → Option V
  find k [] = none
  find k ((j, v) ∷ m) = if j == k then some v else find k m

  unfoldable pub assign : K → V → List (K × V) → List (K × V)
  assign k v [] = (k, v) ∷ []
  assign k v ((j, w) ∷ m) = if j == k then (k, v) ∷ m else (j, w) ∷ assign k v m

  -- An entry that is there already stays.
  unfoldable pub emplace : K → V → List (K × V) → List (K × V)
  emplace k v [] = (k, v) ∷ []
  emplace k v ((j, w) ∷ m) = if j == k then (j, w) ∷ m else (j, w) ∷ emplace k v m

  pub find-assign :
      (k j : K) (v : V) (m : List (K × V))
      → find j (assign k v m) ≡ (if k == j then some v else find j m)
  unfolding find assign
  find-assign k j v [] = refl
  find-assign k j v ((i, w) ∷ m) =
      ground (arith, e.beq_iff k j, e.beq_iff i k, e.beq_iff i j, find-assign k j v m)

  pub find-emplace :
      (k j : K) (v : V) (m : List (K × V))
      → find j (emplace k v m)
        ≡ (if k == j then elim (find k m) [ some w ↦ some w | none ↦ some v ] else find j m)
  unfolding find emplace
  find-emplace k j v [] = ground arith
  find-emplace k j v ((i, w) ∷ m) =
      ground (arith, e.beq_iff k j, e.beq_iff i k, e.beq_iff i j, find-emplace k j v m)

  -- Each key stands once.
  abbrev pub UniqueKeys : List (K × V) → Type ℓ
  UniqueKeys [] = Unit
  UniqueKeys ((k, v) ∷ m) = (find k m ≡ none) × UniqueKeys m

  pub assign-UniqueKeys :
      (k : K) (v : V) (m : List (K × V)) → UniqueKeys m → UniqueKeys (assign k v m)
  unfolding find assign
  assign-UniqueKeys k v [] h = (refl, tt)
  assign-UniqueKeys k v ((j, w) ∷ m) (new, h) =
      ground (arith, e.beq_iff j k, e.beq_iff k j, find-assign k j v m, assign-UniqueKeys k v m h)

  -- Each entry is what its key finds.
  pub find-entries : (m : List (K × V)) → UniqueKeys m → All (λ kv. find kv.0 m ≡ some kv.1) m
  unfolding find
  find-entries m h = go m m (λ k v found. found) h
    where
      go :
          (all part : List (K × V))
          → ((k : K) (v : V) → find k part ≡ some v → find k all ≡ some v)
          → UniqueKeys part
          → All (λ kv. find kv.0 all ≡ some kv.1) part
      go all [] up h = tt
      go all ((k, v) ∷ part) up (new, h) = (
        up k v (ground (arith, e.beq_iff k k)),
        go all part (λ j w found. up j w (ground (arith, e.beq_iff k j))) h,
      )
