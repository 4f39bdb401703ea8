-- ===== src/PerfMetrics/Range/Vector.antt =====
-- lib/collectors/perf_metrics/src/perf_metrics.h: how the vector of `parse_range` grows and is set.
use atlas_system_agent.Base.{
  ℕ, zero, suc, ◌+◌, ◌-◌, ◌≡◌, refl, ap, sym, ◌∙◌, Bool, true, false, List, [], ◌∷◌, ◌++◌, length,
  replicate, arith, set, append_assoc, length-append, take,
}
use atlas_system_agent.PerfMetrics.{resize}
use atlas_system_agent.PerfMetrics.Range.{set_from}

take_all : (xs : List Bool) → take (length xs) xs ≡ xs
take_all [] = refl
take_all (x ∷ xs) = ap (λ r. x ∷ r) (take_all xs)

pub length-replicate : (n : ℕ) (v : Bool) → length (replicate n v) ≡ n
length-replicate zero v = refl
length-replicate (suc n) v = omega (arith, length-replicate n v)

pub replicate_add : (m n : ℕ) (v : Bool) → replicate (m + n) v ≡ replicate m v ++ replicate n v
replicate_add zero n v = let e : 0 + n ≡ n = omega arith in ap (λ k. replicate k v) e
replicate_add (suc m) n v =
    let e : suc m + n ≡ suc (m + n) = omega arith in
    ap (λ k. replicate k v) e ∙ ap (λ r. v ∷ r) (replicate_add m n v)

-- A larger size adds CPUs that are not in a range.
pub resize_more :
    (n m : ℕ) (xs : List Bool) → length xs + m ≡ n → resize false n xs ≡ xs ++ replicate m false
resize_more n m xs h =
    let e : n - length xs ≡ m = omega arith in
    let l : length (xs ++ replicate m false) ≡ n =
      omega (arith, length-append xs (replicate m false), length-replicate m false) in
    ap (λ k. take n (xs ++ replicate k false)) e
    ∙ ap (λ k. take k (xs ++ replicate m false)) (sym l)
    ∙ take_all (xs ++ replicate m false)

pub set_middle :
    (front back : List Bool) (x v : Bool)
    → set (front ++ x ∷ back) (length front) v ≡ front ++ v ∷ back
set_middle [] back x v = refl
set_middle (y ∷ front) back x v = ap (λ r. y ∷ r) (set_middle front back x v)

pub set_from_lem :
    (n : ℕ) (front : List Bool)
    → set_from n (length front) (front ++ replicate n false) ≡ front ++ replicate n true
unfolding set_from
set_from_lem zero front = refl
set_from_lem (suc n) front =
    let l : length (front ++ true ∷ []) ≡ suc (length front) =
      omega (arith, length-append front (true ∷ [])) in
    ap (set_from n (suc (length front))) (set_middle front (replicate n false) false true)
    ∙ ap (set_from n (suc (length front))) (sym (append_assoc front (true ∷ []) _))
    ∙ ap (λ k. set_from n k ((front ++ true ∷ []) ++ replicate n false)) (sym l)
    ∙ set_from_lem n (front ++ true ∷ [])
    ∙ append_assoc front (true ∷ []) (replicate n true)

set_last_replicate : (n : ℕ) → set (replicate (suc n) true) n true ≡ replicate (suc n) true
set_last_replicate zero = refl
set_last_replicate (suc n) = ap (λ r. true ∷ r) (set_last_replicate n)

-- The last of the CPUs that were set is set again.
pub set_last :
    (n : ℕ) (front : List Bool)
    → set (front ++ replicate (suc n) true) (length front + n) true
      ≡ front ++ replicate (suc n) true
set_last n [] =
    let e : 0 + n ≡ n = omega arith in
    ap (λ k. set (replicate (suc n) true) k true) e ∙ set_last_replicate n
set_last n (x ∷ front) =
    let e : length (x ∷ front) + n ≡ suc (length front + n) = omega arith in
    ap (λ k. set (x ∷ front ++ replicate (suc n) true) k true) e
    ∙ ap (λ r. x ∷ r) (set_last n front)
