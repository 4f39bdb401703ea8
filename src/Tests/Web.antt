-- ===== src/Tests/Web.antt =====
-- lib/http_client and AtlasAgent: a server that fails twice, and a few turns of the loop.
use atlas_system_agent.Base.{
  ℕ, zero, suc, ◌+◌, ◌-◌, ◌/◌, ◌%◌, ◌≤◌, ◌≡◌, refl, Bool, true, false, some, [], ◌∷◌, codes, arith,
  text_eq, length,
}
use atlas_system_agent.HttpClient.Perform.{
  Attempt, CurlResult, performed, timed_out, get, Done, decide, perform, response, failed, answered,
  is_retryable_error,
}
use atlas_system_agent.HttpClient.Retry.{ReturnsAttempt, final_attempt, get_retries}
use atlas_system_agent.Agent.PollingDelay.{initial_polling_delay, initial_polling_delay_lem}
use atlas_system_agent.Agent.Loop.{Turn, first_schedule, seconds, run}
use atlas_system_agent.Agent.Loop.Rate.{
  turns_with, is_perfspect, last_start, run-five_seconds, run-Overdue,
}

abbrev answer : CurlResult → Attempt
answer r = record {
  output = codes "o" ∷ codes "k" ∷ [];
  header_lines = [];
  result = r;
  within_timeout = true;
}

-- A timeout, a 503, and a success.
abbrev flaky : ℕ → Attempt
flaky zero = answer timed_out
flaky (suc zero) = answer (performed 503)
flaky (suc (suc n)) = answer (performed 200)

-- The call waits 400 ms between the second attempt and the third.
flaky_run :
    (d : Done) × (get (codes "http://host/x") flaky 3 ≡ some d)
    × (d.response.status ≡ 200)
    × (d.slept_ms ≡ 400 ∷ [])
unfolding get perform decide failed answered is_retryable_error response
flaky_run = (_, refl, refl, refl)

get_retries_example : ReturnsAttempt (codes "http://host/x") flaky (final_attempt flaky)
get_retries_example = get_retries (codes "http://host/x") flaky

-- The draw is the lower end of the range.
abbrev lowest : ℕ → ℕ → ℕ
lowest a b = a

initial_polling_delay_lem_example :
    (initial_polling_delay lowest 119 ≤ 59)
    × (10 ≤ (119 + initial_polling_delay lowest 119) % 60)
    × ((119 + initial_polling_delay lowest 119) % 60 ≤ 50)
initial_polling_delay_lem_example = initial_polling_delay_lem lowest 119 (λ a b h. (omega arith, h))

-- A turn that takes no time, and ends with the given flag.
abbrev turn : ℕ → Bool → Turn
turn second terminate = record {
  start = seconds second;
  before_wait = seconds second;
  terminate = terminate;
}

run-five_seconds_example :
    turns_with is_perfspect
      (run (turn 4 false ∷ turn 9 false ∷ turn 11 false ∷ []) (first_schedule 0)).0
    ≡ (last_start 0 (turn 4 false ∷ turn 9 false ∷ turn 11 false ∷ []) - 0) / seconds 5
run-five_seconds_example =
    run-five_seconds 0 (turn 4 false ∷ turn 9 false ∷ turn 11 false ∷ []) (refl, (refl, (refl, tt)))
      (omega arith, omega arith, (omega arith, omega arith, (omega arith, omega arith, tt)))

-- Turns of two seconds each, signalled from the start.
run-Overdue_example : length (run (turn 2 true ∷ turn 4 true ∷ []) (first_schedule 0)).0 ≡ 2
unfolding first_schedule
run-Overdue_example =
    run-Overdue (turn 2 true ∷ turn 4 true ∷ []) (first_schedule 0) (omega arith, (omega arith, tt))
