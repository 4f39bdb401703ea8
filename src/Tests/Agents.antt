-- ===== src/Tests/Agents.antt =====
-- AtlasAgent, lib/collectors/aws, lib/collectors/perf_metrics and lib/collectors/perfspect: small inputs.
use atlas_system_agent.Base.{
  ℕ, zero, suc, ◌-◌, ◌/◌, ◌≡◌, ◌≢◌, refl, true, false, Option, none, some, List, [], ◌∷◌, Text,
  codes, map, replicate, inr, arith, All, if◌then◌else◌,
}
use atlas_system_agent.Base.Int.{ℤ, pos, pos_part}
use atlas_system_agent.Base.Numbers.{stoi, stoll}
use atlas_system_agent.Base.Outcome.{ok}
use atlas_system_agent.Metrics.{whole, Metric}
use atlas_system_agent.StrSplit.{str_split}
use atlas_system_agent.Agent.Loop.{Turn, seconds}
use atlas_system_agent.Agent.Loop.Rate.{last_start}
use atlas_system_agent.Agent.Container.{titus, collect_metrics}
use atlas_system_agent.Agent.Container.Rate.{
  turns_calling, is_io_stats, is_memory_stats, collect_metrics_rates,
}
use atlas_system_agent.Agent.Options.{GetOpt, opt_c, opt_v, opt_s, parse_options}
use atlas_system_agent.Agent.Options.Last.{limit_of, accepts_all, last_limit, parse_options-limit}
use atlas_system_agent.Aws.{
  Response, Request, put_token, get_url, parse_error, new_aws, with_url, collect_all,
}
use atlas_system_agent.Aws.Url.{IsOf, collect_all-same_url}
use atlas_system_agent.PerfMetrics.{
  PerfCount, PerfCounter, Opened, opened, other_error, read_counts,
}
use atlas_system_agent.PerfMetrics.Collect.{PerfMetrics, Answers, collect}
use atlas_system_agent.PerfMetrics.Sized.{IsValid, collect-IsValid}
use atlas_system_agent.PerfMetrics.Counters.{Allowed}
use atlas_system_agent.PerfMetrics.Range.{parse_range}
use atlas_system_agent.PerfMetrics.Range.Ends.{parse_range-ends}
use atlas_system_agent.PerfMetrics.Range.Printed.{print_spans, members, parse_range_printed}
use atlas_system_agent.Perfspect.{ProcessAnswers, Perfspect, read_line, new_perfspect, gather_all}
use atlas_system_agent.Perfspect.Instance.{parse_product_name}
use atlas_system_agent.Perfspect.Instance.Names.{product_name, parse_product_name-product_name}
use atlas_system_agent.Perfspect.Lines.{
  printed, prints, line_metrics, lines_turns, gather_all-lines,
}
use atlas_system_agent.Perfspect.Restarts.{start_all, gather_all-start_all}

abbrev turn : ℕ → Turn
turn second = record { start = seconds second; before_wait = seconds second; terminate = false }

abbrev two_turns : List Turn
two_turns = turn 4 ∷ turn 9 ∷ []

collect_metrics_rates_example :
    (turns_calling is_io_stats (collect_metrics titus 0 two_turns)
      ≡ (last_start 0 two_turns - 0) / seconds 5)
    × (turns_calling is_memory_stats (collect_metrics titus 0 two_turns)
        ≡ suc ((last_start 0 two_turns - 0) / seconds 60))
collect_metrics_rates_example =
    collect_metrics_rates titus 0 two_turns (refl, (refl, tt))
      (omega arith, omega arith, (omega arith, omega arith, tt))

abbrev arguments : List GetOpt
arguments = opt_v ∷ opt_s (codes "12") ∷ opt_c (codes "f") ∷ opt_s (codes "20") ∷ []

parse_options-limit_example :
    limit_of (parse_options str_split false arguments)
    ≡ (if accepts_all arguments then some (last_limit 0 arguments) else none)
parse_options-limit_example = parse_options-limit str_split false arguments

-- The limit is that of the second -s.
limit_of_twenty : last_limit 0 arguments ≡ 20
unfolding stoi
limit_of_twenty = refl

-- What stands behind the number of an -s is ignored.
limit_of_prefix : accepts_all (opt_s (codes "12abc") ∷ []) ≡ true
unfolding stoi
limit_of_prefix = refl

parse_range-ends_example : parse_range (some (codes "0-3,x")) [] ≢ none
parse_range-ends_example = parse_range-ends (some (codes "0-3,x")) []

parse_range_printed_example :
    parse_range (some (print_spans ((0, 3) ∷ (5, 5) ∷ []))) []
    ≡ some (ok (members 0 ((0, 3) ∷ (5, 5) ∷ [])))
parse_range_printed_example =
    parse_range_printed ((0, 3) ∷ (5, 5) ∷ [])
      (omega arith, omega arith, omega arith, (omega arith, omega arith, omega arith, tt))

parse_product_name-product_name_example :
    parse_product_name (product_name b'm' b'7' (codes "fl") b'i' (codes "x") (codes "large"))
    ≡ some (b'7', b'i')
parse_product_name-product_name_example =
    parse_product_name-product_name b'm' b'7' b'i' (codes "fl") (codes "x") (codes "large")
      (refl, (refl, (refl, (refl, tt)))) (refl, (refl, tt)) refl (refl, tt)

-- One CPU, with a count for each event.
abbrev count : ℕ → PerfCount
count n = record { raw_value = n; time_enabled = n; time_running = n }

abbrev one_counter : PerfCounter
one_counter = record { fds = some 3 ∷ []; prev_vals = count 5 ∷ [] }

abbrev one_cpu : PerfMetrics
one_cpu = record {
  disabled = false;
  online_cpus = true ∷ [];
  cycles = one_counter;
  instructions = one_counter;
  cache_refs = one_counter;
  cache_misses = one_counter;
  branch_insts = one_counter;
  branch_misses = one_counter;
}

-- Another CPU comes, and the events of its counters cannot be opened for another reason.
abbrev open_first : ℕ → Opened
open_first zero = opened 4
open_first (suc cpu) = other_error

abbrev second_cpu : Answers
second_cpu = record {
  perf_open = λ event. open_first;
  read = λ fd. some (count 9);
  get_online_cpus = true ∷ true ∷ [];
}

open_first-Allowed : Allowed open_first
open_first-Allowed zero = (ground arith, ground arith)
open_first-Allowed (suc cpu) = (ground arith, ground arith)

one_counter-read : read_counts second_cpu.read one_counter.fds ≢ none
unfolding read_counts
one_counter-read = ground arith

collect-IsValid_example :
    (res : List (Metric ℤ) × PerfMetrics) × (collect pos_part second_cpu one_cpu ≡ ok res)
    × IsValid res.1
collect-IsValid_example =
    collect-IsValid pos_part second_cpu one_cpu
      (inr ((refl, refl), (refl, refl), (refl, refl), (refl, refl), (refl, refl), (refl, refl)))
      (one_counter-read, one_counter-read, one_counter-read, one_counter-read)
      (
        open_first-Allowed, open_first-Allowed, open_first-Allowed, open_first-Allowed,
        open_first-Allowed,
      )

-- The process can be stopped and launched.
abbrev script_answers : ProcessAnswers
script_answers = record {
  running = true;
  completions = [];
  cleanup = record { running = some true; terminated = true; waited = true };
  launched = true;
}

abbrev data_line : Option Text
data_line = some (codes "t,a,b,c,2400,10,20,30")

gather_all-lines_example :
    (gather_all {F = ℤ}
      (λ v. v)
      stoll
      (script_answers
        ∷ prints script_answers (read_line (codes "header") ∷ printed data_line)
        ∷ lines_turns ((script_answers, none) ∷ (script_answers, data_line) ∷ []))
      new_perfspect).0
    ≡ []
      ∷ line_metrics (λ v. v) stoll data_line
      ∷ map
          (λ (t : ProcessAnswers × Option Text). line_metrics (λ v. v) stoll t.1)
          ((script_answers, none) ∷ (script_answers, data_line) ∷ [])
gather_all-lines_example =
    gather_all-lines (λ v. v) stoll script_answers script_answers (codes "header") data_line
      ((script_answers, none) ∷ (script_answers, data_line) ∷ []) refl

-- The read of a running process failed at the turn before.
abbrev after_error : Perfspect
after_error = record {
  script = true;
  reading = true;
  first_iteration = true;
  pending_line = [];
  last_async_error = true;
}

gather_all-start_all_example :
    gather_all {F = ℤ} {D = ℤ} (λ v. v) stoll (script_answers ∷ script_answers ∷ []) after_error
    ≡ (replicate 2 [], start_all (script_answers ∷ script_answers ∷ []) after_error)
gather_all-start_all_example =
    gather_all-start_all (λ v. v) stoll (script_answers ∷ script_answers ∷ []) after_error refl
      (refl, (refl, tt))

-- A metadata service that answers everything.
abbrev answers_all : Request → Response
answers_all (put_token url) = record { status = 200; raw_body = codes "token" }
answers_all (get_url url token) = record { status = 200; raw_body = codes "{" }

abbrev calls_of_aws : List ((Request → Response) × ℤ)
calls_of_aws = (answers_all, pos 5) ∷ (answers_all, pos 9) ∷ []

collect_all-same_url_example :
    All
      (All (IsOf (codes "http://u")))
      (collect_all {D = ℤ}
        (λ t. t)
        (λ s. pos 0)
        (λ s. parse_error)
        calls_of_aws
        (with_url (new_aws (some (codes "ec2")) none) (codes "http://u"))).0
    × ((collect_all {D = ℤ}
          (λ t. t)
          (λ s. pos 0)
          (λ s. parse_error)
          calls_of_aws
          (with_url (new_aws (some (codes "ec2")) none) (codes "http://u"))).1.creds_url
        ≡ codes "http://u")
collect_all-same_url_example =
    collect_all-same_url {D = ℤ} (λ t. t) (λ s. pos 0) (λ s. parse_error) calls_of_aws
      (with_url (new_aws (some (codes "ec2")) none) (codes "http://u")) b'h' (codes "ttp://u") refl
