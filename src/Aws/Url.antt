-- ===== src/Aws/Url.antt =====
-- lib/collectors/aws/src/aws.h: the URL of the credentials is asked for once.
use atlas_system_agent.Base.{
  ℕ, ◌≡◌, refl, sym, subst, some, List, [], ◌∷◌, Text, All, codes, eqb, if_cases, text_beq, ◌||◌,
}
use atlas_system_agent.Base.Int.{ℤ}
use atlas_system_agent.Base.Outcome.{Outcome}
use atlas_system_agent.Metrics.{Double, Metric}
use atlas_system_agent.Aws.{
  Document, Response, Request, put_token, get_url, Aws, find_url, ask_credentials, collect,
  collect_all,
}

-- A request of a token, or of this URL.
abbrev pub IsOf : Text → Request → Type 0
IsOf url (put_token endpoint) = Unit
IsOf url (get_url asked token) = asked ≡ url

find_url_known :
    (answer : Request → Response) (token : Text) (c : ℕ) (rest : Text) (aws : Aws)
    → aws.creds_url ≡ c ∷ rest
    → find_url answer token aws ≡ ([], some (c ∷ rest))
unfolding find_url
find_url_known answer token c rest aws e = rw (e, find_url) refl

module _ {D : Type 0} ⦃fp : Double D⦄ (to_double_seconds : ℤ → D) (to_time : Text → ℤ)
    (parse : Text → Document) where
  abbrev Keeps : Text → List Request × Outcome (List (Metric D)) × Aws → Type 0
  Keeps url result = All (IsOf url) result.0 × (result.2.creds_url ≡ url)

  ask_credentials_known :
      (answer : Request → Response) (now : ℤ) (aws : Aws) (token url : Text)
      → Keeps url
          (ask_credentials to_double_seconds to_time parse answer now aws token ([], some url))
  unfolding ask_credentials
  ask_credentials_known answer now aws token url = ((refl, tt), refl)

  collect_known :
      (answer : Request → Response) (now : ℤ) (aws : Aws) (c : ℕ) (rest : Text)
      → aws.creds_url ≡ c ∷ rest
      → Keeps (c ∷ rest) (collect to_double_seconds to_time parse answer now aws)
  unfolding collect
  collect_known answer now aws c rest e =
      let asked = put_token aws.token_endpoint in
      let token = (answer asked).raw_body in
      let ask = ask_credentials to_double_seconds to_time parse answer now aws token in
      let last =
        subst (λ f. Keeps (c ∷ rest) (ask f)) (sym (find_url_known answer token c rest aws e))
          (ask_credentials_known answer now aws token (c ∷ rest)) in
      if_cases (Keeps (c ∷ rest))
        (text_beq aws.executor (codes "ec2") || text_beq aws.executor (codes "titus")) _ _
        (λ _.
          if_cases (Keeps (c ∷ rest)) (eqb (answer asked).status 200) _ _
            (λ _. ((tt, last.0), last.1)) (λ _. ((tt, tt), e)))
        (λ _. (tt, e))

  -- When the URL of the credentials is known, no later call asks for the instance profile: every
  -- request is of a token or of that URL, which stays.
  pub collect_all-same_url :
      (calls : List ((Request → Response) × ℤ)) (aws : Aws) (c : ℕ) (rest : Text)
      → aws.creds_url ≡ c ∷ rest
      → let result = collect_all to_double_seconds to_time parse calls aws in
        All (All (IsOf (c ∷ rest))) result.0 × (result.1.creds_url ≡ c ∷ rest)
  unfolding collect_all
  collect_all-same_url [] aws c rest e = (tt, e)
  collect_all-same_url ((answer, now) ∷ calls) aws c rest e =
      let (asked, kept) = collect_known answer now aws c rest e in
      let (more, last) =
        collect_all-same_url calls (collect to_double_seconds to_time parse answer now aws).2 c rest
          kept in
      ((asked, more), last)
