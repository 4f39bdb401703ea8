-- ===== src/Metrics.antt =====
-- What the collectors hand to the spectator registry: one record for each `Set`, `Increment` or
-- `Record`; and the arithmetic of `double`, which is a parameter.
use atlas_system_agent.Base.{ℕ, suc, Bool, List, String, Text}
use atlas_system_agent.Base.Int.{ℤ, pos, negsuc, div_trunc, ◌+ℤ◌, ◌-ℤ◌, ◌*ℤ◌, ltb_ℤ, leb_ℤ}

-- `double`, with the conversions, operations and comparisons that the collectors use. Every literal
-- of the collectors that takes part in the arithmetic is a whole number.
pub record Double (D : Type 0) : Type 0 where
  pub of_ℤ : ℤ → D
  pub add : D → D → D
  pub sub : D → D → D
  pub mul : D → D → D
  pub div : D → D → D
  pub lt : D → D → Bool
  pub le : D → D → Bool

abbrev pub of_ℕ : {D : Type 0} ⦃fp : Double D⦄ → ℕ → D
of_ℕ ⦃fp⦄ n = fp.of_ℤ (pos n)

-- The meter that a value goes to. A gauge may have a time to live, in seconds.
pub data Kind : Type 0 where
  gauge max_gauge counter monotonic_counter distribution_summary : Kind
  gauge_ttl : ℕ → Kind

abbrev pub Tags : Type 0
Tags = List (String × Text)

pub record Metric (D : Type 0) : Type 0 where
  pub kind : Kind
  pub name : String
  pub tags : Tags
  pub value : D

abbrev pub metric : {D : Type 0} → Kind → String → Tags → D → Metric D
metric k n t v = record { kind = k; name = n; tags = t; value = v }

-- The whole numbers with a truncating division: a type of values that evaluates.
abbrev pub quotient : ℤ → ℤ → ℤ
quotient a (pos d) = div_trunc a d
quotient a (negsuc d) = div_trunc (pos 0 -ℤ a) (suc d)

instance abbrev pub whole : Double ℤ
whole = record {
  of_ℤ = λ a. a;
  add = ◌+ℤ◌;
  sub = ◌-ℤ◌;
  mul = ◌*ℤ◌;
  div = quotient;
  lt = ltb_ℤ;
  le = leb_ℤ;
}
