-- ===== src/Agent/Options/Last.antt =====
-- AtlasAgent/src/atlas-agent.cpp: which options `parse_options` accepts, and which of them count.
use atlas_system_agent.Base.{
  ℕ, ◌≡◌, refl, Bool, true, false, Option, none, some, List, [], ◌∷◌, ◌∙◌, Bool-cases, not, inl,
  inr, if◌then◌else◌,
}
use atlas_system_agent.Base.Int.{ℤ, pos, leb_ℤ, pos_part}
use atlas_system_agent.Base.Numbers.{stoi}
use atlas_system_agent.StrSplit.{StrSplit}
use atlas_system_agent.Agent.Options.{
  AgentOptions, GetOpt, opt_c, opt_t, opt_s, opt_v, opt_unknown, set_service_limit, set_option,
  set_options, with_cfg_file, parse_options,
}

abbrev pub is_limit : Option ℤ → Bool
is_limit none = false
is_limit (some v) = not (leb_ℤ v (pos 0))

abbrev pub limit_or : ℕ → Option ℤ → ℕ
limit_or limit none = limit
limit_or limit (some v) = pos_part v

-- The options that do not end the process.
abbrev pub accepts : GetOpt → Bool
accepts opt_unknown = false
accepts (opt_s optarg) = is_limit (stoi optarg)
accepts _ = true

abbrev pub accepts_all : List GetOpt → Bool
accepts_all [] = true
accepts_all (g ∷ gs) = let rest = accepts_all gs in if accepts g then rest else false

-- The argument of the last -s, if there is one.
abbrev pub last_limit : ℕ → List GetOpt → ℕ
last_limit limit [] = limit
last_limit limit (opt_s optarg ∷ gs) = last_limit (limit_or limit (stoi optarg)) gs
last_limit limit (g ∷ gs) = last_limit limit gs

abbrev pub limit_of : Option AgentOptions → Option ℕ
limit_of none = none
limit_of (some o) = some o.max_monitored_services

with_cfg_file-limit :
    (r : Option AgentOptions)
    → limit_of
        (elim r as (λ _. Option AgentOptions) [ none ↦ none | some o ↦ some (with_cfg_file o) ])
      ≡ limit_of r
with_cfg_file-limit none = refl
with_cfg_file-limit (some o) = refl

limit_step :
    (split : StrSplit) (gs : List GetOpt) (o : AgentOptions)
    → ((next : AgentOptions)
        → limit_of (set_options split gs next)
          ≡ (if accepts_all gs then some (last_limit next.max_monitored_services gs) else none))
    → (v : Option ℤ)
    → limit_of (elim (set_service_limit v o) as (λ _. Option AgentOptions) [
      | none ↦ none
      | some next ↦ set_options split gs next
    ])
      ≡ (if (if is_limit v then accepts_all gs else false)
          then some (last_limit (limit_or o.max_monitored_services v) gs)
          else none)
unfolding set_service_limit
limit_step split gs o rest none = refl
limit_step split gs o rest (some v) = elim (Bool-cases (leb_ℤ v (pos 0))) [
  | inl small ↦ rw (small, set_service_limit) refl
  | inr fit ↦ rw (fit, set_service_limit) (rest _)
]

set_options-limit :
    (split : StrSplit) (gs : List GetOpt) (o : AgentOptions)
    → limit_of (set_options split gs o)
      ≡ (if accepts_all gs then some (last_limit o.max_monitored_services gs) else none)
unfolding set_options set_option
set_options-limit split [] o = refl
set_options-limit split (opt_c optarg ∷ gs) o = set_options-limit split gs _
set_options-limit split (opt_t optarg ∷ gs) o = set_options-limit split gs _
set_options-limit split (opt_v ∷ gs) o = set_options-limit split gs _
set_options-limit split (opt_unknown ∷ gs) o = refl
set_options-limit split (opt_s optarg ∷ gs) o =
    limit_step split gs o (set_options-limit split gs) (stoi optarg)

-- parse_options ends the process exactly where an option is unknown or the argument of an -s does not
-- begin, behind any blanks and at most one plus sign, with a positive number that fits an int, whatever follows
-- the number; else the limit of the services is that number of the last -s, or 0.
pub parse_options-limit :
    (split : StrSplit) (verbose_agent : Bool) (gs : List GetOpt)
    → limit_of (parse_options split verbose_agent gs)
      ≡ (if accepts_all gs then some (last_limit 0 gs) else none)
unfolding parse_options
parse_options-limit split verbose_agent gs = with_cfg_file-limit _ ∙ set_options-limit split gs _
