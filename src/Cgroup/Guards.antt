-- ===== src/Cgroup/Guards.antt =====
-- cgroup.cpp: a step that throws unless its guard holds, as in the parsers of io.stat and io.max.
use atlas_system_agent.Base.{◌≡◌, Bool, true, false, Option, [], if◌then◌else◌, arith}
use atlas_system_agent.Base.Outcome.{ok, err, thrown}
use atlas_system_agent.Cgroup.Fields.{is_none, to_list}

pub thrown_not_ok : {A : Type 0} {a : A} → err thrown ≡ ok a → ⊥
thrown_not_ok e = ground arith

pub guarded_true :
    {A : Type 0} {b : Bool} {a c : A} → b ≡ true → (if b then ok a else err thrown) ≡ ok c → a ≡ c
guarded_true b e = ground arith

pub guarded_false :
    {A : Type 0} {b : Bool} (a : A) {c : A}
    → b ≡ false
    → (if b then ok a else err thrown) ≡ ok c
    → ⊥
guarded_false a b e = ground arith

pub is_none-to_list : {A : Type 0} (o : Option A) → is_none o ≡ true → to_list o ≡ []
is_none-to_list o e = ground arith
