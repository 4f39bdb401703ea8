-- ===== src/Aws.antt =====
-- lib/collectors/aws/src/aws.h. The answers of the metadata service, the JSON document and the parser
-- of its dates are parameters. Times are in nanoseconds from the epoch.
pub mod Url
use atlas_system_agent.Base.{
  ℕ, ◌*◌, Bool, true, false, ◌||◌, Option, none, some, List, [], ◌∷◌, ◌++◌, Text, String, codes,
  eqb, if◌then◌else◌, text_beq,
}
use atlas_system_agent.Base.Int.{ℤ, pos, ◌-ℤ◌, ◌*ℤ◌, ltb_ℤ, leb_ℤ}
use atlas_system_agent.Base.Outcome.{Outcome, ok, err, terminated, ◌>>=◌}
use atlas_system_agent.Metrics.{Double, of_ℕ, Metric, metric, gauge, counter}

-- A member of the document: not there, a string, or another value, of which `GetString` is an
-- assertion that fails.
pub data Member : Type 0 where
  missing other_value : Member
  string_value : Text → Member

pub data Document : Type 0 where
  parse_error not_object : Document
  json_object : Member → Member → Document

-- `to_time` gives the seconds that strptime and timegm make of a date.
unfoldable pub get_date_from : (Text → ℤ) → Member → Outcome ℤ
get_date_from to_time missing = ok (pos 0)
get_date_from to_time other_value = err terminated
get_date_from to_time (string_value s) = ok (to_time s *ℤ pos 1000000000)

abbrev pub minutes : ℕ → ℤ
minutes n = pos (n * 60000000000)

unfoldable pub ttl_bucket : ℤ → String
ttl_bucket ttl =
    if ltb_ℤ ttl (pos 0)
    then "expired"
    else if leb_ℤ ttl (minutes 5)
    then "05min"
    else if leb_ℤ ttl (minutes 30)
    then "30min"
    else if leb_ℤ ttl (minutes 60)
    then "60min"
    else "hours"

pub record Response : Type 0 where
  pub status : ℕ
  pub raw_body : Text

-- The requests: of a token, and of a URL with a token.
pub data Request : Type 0 where
  put_token : Text → Request
  get_url : Text → Text → Request

pub record Aws : Type 0 where
  pub executor : Text
  pub token_endpoint : Text
  pub iam_endpoint : Text
  pub creds_url : Text

abbrev or_default : Text → Option Text → Text
or_default default none = default
or_default default (some value) = value

-- The environment variables NETFLIX_EXECUTOR and AWS_EC2_METADATA_SERVICE_ENDPOINT.
unfoldable pub new_aws : Option Text → Option Text → Aws
new_aws executor endpoint =
    let host : Text = or_default (codes "http://169.254.169.254") endpoint in
    record {
      executor = or_default (codes "unknown") executor;
      token_endpoint = host ++ codes "/latest/api/token";
      iam_endpoint = host ++ codes "/latest/meta-data/iam/security-credentials/";
      creds_url = [];
    }

-- The members of `Aws` with the URL of the credentials.
abbrev pub with_url : Aws → Text → Aws
with_url aws url = record {
  executor = aws.executor;
  token_endpoint = aws.token_endpoint;
  iam_endpoint = aws.iam_endpoint;
  creds_url = url;
}

-- The URL that is known, or the one that the instance profile gives: the requests and the URL.
unfoldable pub find_url : (Request → Response) → Text → Aws → List Request × Option Text
find_url answer token aws =
    let request = get_url aws.iam_endpoint token in
    let profile = answer request in
    elim aws.creds_url [
      | [] ↦ (
        request ∷ [],
        if eqb profile.status 200 then some (aws.iam_endpoint ++ profile.raw_body) else none,
      )
      | c ∷ url ↦ ([], some (c ∷ url))
    ]

module _ {D : Type 0} ⦃fp : Double D⦄ (to_double_seconds : ℤ → D) (to_time : Text → ℤ)
    (parse : Text → Document) where
  abbrev pub refresh_error : Metric D
  refresh_error = metric counter "aws.credentialsRefreshErrors" [] (of_ℕ 1)

  abbrev pub age_metrics : ℤ → ℤ → List (Metric D)
  age_metrics now last_updated =
      if ltb_ℤ (pos 0) last_updated
      then metric gauge "aws.credentialsAge" [] (to_double_seconds (now -ℤ last_updated)) ∷ []
      else []

  abbrev pub ttl_metrics : ℤ → ℤ → List (Metric D)
  unfolding ttl_bucket
  ttl_metrics now expiration =
      let ttl = expiration -ℤ now in
      if ltb_ℤ (pos 0) expiration
      then metric gauge "aws.credentialsTtl" [] (to_double_seconds ttl)
        ∷ metric counter "aws.credentialsTtlBucket" (("bucket", codes (ttl_bucket ttl)) ∷ [])
            (of_ℕ 1)
        ∷ []
      else []

  -- The gauge of the age is set before the expiration is read; an assertion that fails ends all.
  unfoldable pub update_stats_from : ℤ → Text → Outcome (List (Metric D))
  unfolding get_date_from
  update_stats_from now json = elim (parse json) [
    | parse_error ↦ ok (refresh_error ∷ [])
    | not_object ↦ ok (refresh_error ∷ [])
    | json_object last_updated expiration ↦ do
      updated ← get_date_from to_time last_updated
      expires ← get_date_from to_time expiration
      ok (age_metrics now updated ++ ttl_metrics now expires)
  ]

  -- The last request of `collect`.
  unfoldable pub read_credentials :
      (Request → Response) → ℤ → Text → Text → Outcome (List (Metric D))
  unfolding update_stats_from
  read_credentials answer now token url =
      let credentials = answer (get_url url token) in
      if eqb credentials.status 200
      then update_stats_from now credentials.raw_body
      else ok (refresh_error ∷ [])

  -- The end of `collect`, from the requests and the URL that `find_url` gives on.
  unfoldable pub ask_credentials :
      (Request → Response)
      → ℤ
      → Aws
      → Text
      → List Request × Option Text
      → List Request × Outcome (List (Metric D)) × Aws
  unfolding read_credentials
  ask_credentials answer now aws token (requests, none) = (requests, ok [], aws)
  ask_credentials answer now aws token (requests, some url) =
      (requests ++ get_url url token ∷ [], read_credentials answer now token url, with_url aws url)

  -- `collect`: the requests in order, the metrics and the members.
  unfoldable pub collect :
      (Request → Response) → ℤ → Aws → List Request × Outcome (List (Metric D)) × Aws
  unfolding find_url ask_credentials
  collect answer now aws =
      let asked = put_token aws.token_endpoint in
      let token = (answer asked).raw_body in
      let last = ask_credentials answer now aws token (find_url answer token aws) in
      let with_token : List Request × Outcome (List (Metric D)) × Aws =
        (asked ∷ last.0, last.1, last.2) in
      if text_beq aws.executor (codes "ec2") || text_beq aws.executor (codes "titus")
      then (if eqb (answer asked).status 200 then with_token else (asked ∷ [], ok [], aws))
      else ([], ok [], aws)

  -- `collect`, one call after the other, with the answers and the time of each.
  unfoldable pub collect_all : List ((Request → Response) × ℤ) → Aws → List (List Request) × Aws
  unfolding collect
  collect_all [] aws = ([], aws)
  collect_all ((answer, now) ∷ calls) aws =
      let (requests, sent, next) = collect answer now aws in
      let (more, last) = collect_all calls next in (requests ∷ more, last)
