-- ===== src/Base/Outcome.antt =====
-- What a C++ call may do besides returning.
use mathlib.Core.Path.{◌≡◌, refl}

-- `thrown`: an exception leaves the function; `terminated`: an exception met a `noexcept` boundary,
-- or an assertion failed, and the process ended; `undefined`: an access out of bounds, whose behaviour C++ does not define.
pub data Fault : Type 0 where
  thrown terminated undefined : Fault

pub data Outcome {ℓ} (A : Type ℓ) : Type ℓ where
  ok : A → Outcome A
  err : Fault → Outcome A

infixl 5 ◌>>=◌
abbrev pub ◌>>=◌ {ℓ κ} : {A : Type ℓ} {B : Type κ} → Outcome A → (A → Outcome B) → Outcome B
ok a >>= f = f a
err e >>= f = err e

-- A sequence that returned: its first part returned, and so did the rest on that result.
pub bind-eq-ok {ℓ κ} :
    {X : Type ℓ} {Y : Type κ} (first : Outcome X) (rest : X → Outcome Y) {y : Y}
    → (first >>= rest) ≡ ok y
    → (x : X) × (first ≡ ok x) × (rest x ≡ ok y)
bind-eq-ok (err fault) rest returned = cc
bind-eq-ok (ok x) rest returned = (x, refl, returned)
