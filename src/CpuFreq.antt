-- ===== src/CpuFreq.antt =====
-- lib/collectors/cpu_freq/src/cpu_freq.h and cpu_freq.cpp: `Stats`. A directory is the names that
-- `readdir` gives, and the files of an entry are what is read of them.
use atlas_system_agent.Base.{Bool, false, Option, List, [], ◌∷◌, ◌++◌, Text, eqb, if◌then◌else◌}
use atlas_system_agent.Base.Int.{ℤ, pos, ltb_ℤ}
use atlas_system_agent.Metrics.{Double, metric, Metric, distribution_summary}
use atlas_system_agent.Util.{read_num_from_file}

-- The files of a policy; `none` is one that cannot be opened.
pub record Policy : Type 0 where
  pub scaling_min_freq : Option Text
  pub scaling_max_freq : Option Text
  pub scaling_cur_freq : Option Text

abbrev is_hidden : Text → Bool
is_hidden [] = false
is_hidden (c ∷ _) = eqb c b'.'

abbrev negative : ℤ → Bool
negative n = ltb_ℤ n (pos 0)

module _ {D : Type 0} ⦃fp : Double D⦄ where
  unfoldable pub policy_metrics : Policy → List (Metric D)
  unfolding read_num_from_file
  policy_metrics p =
      let min = read_num_from_file p.scaling_min_freq in
      let max = read_num_from_file p.scaling_max_freq in
      let cur = read_num_from_file p.scaling_cur_freq in
      if negative min
      then []
      else if negative max
      then []
      else if negative cur
      then []
      else metric distribution_summary "sys.minCoreFrequency" [] (fp.of_ℤ min)
        ∷ metric distribution_summary "sys.maxCoreFrequency" [] (fp.of_ℤ max)
        ∷ metric distribution_summary "sys.curCoreFrequency" [] (fp.of_ℤ cur)
        ∷ []

  unfoldable pub policies_metrics : (Text → Policy) → List Text → List (Metric D)
  unfolding policy_metrics
  policies_metrics policy [] = []
  policies_metrics policy (name ∷ names) =
      let rest = policies_metrics policy names in
      if is_hidden name then rest else policy_metrics (policy name) ++ rest

  unfoldable pub stats : Bool → (Text → Policy) → List Text → List (Metric D)
  unfolding policies_metrics
  stats enabled policy names = if enabled then policies_metrics policy names else []
