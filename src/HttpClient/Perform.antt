-- ===== src/HttpClient/Perform.antt =====
-- lib/http_client/src/http_client.cpp: `perform`, one attempt and the recursion.
use atlas_system_agent.Base.{
  ℕ, zero, suc, ◌+◌, ◌*◌, ◌/◌, ◌^◌, Bool, true, false, ◌&&◌, ◌||◌, Option, none, some, List, [],
  ◌∷◌, ◌++◌, Text, codes, eqb, ltb, if◌then◌else◌,
}
use atlas_system_agent.Base.Int.{pos, negsuc}
use atlas_system_agent.HttpClient.Callbacks.{
  curl_capture_output_fun, curl_capture_headers_fun, capture,
}
use atlas_system_agent.HttpClient.LogEntry
use atlas_system_agent.HttpClient.LogEntry.{LogEntry}

-- `curl_easy_perform`: the errors that the code tells apart, or a response with its status code.
pub data CurlResult : Type 0 where
  couldnt_connect timed_out other_error : CurlResult
  performed : ℕ → CurlResult

-- What one attempt meets: the calls of the two callbacks, the result, and whether less than the
-- total timeout had passed.
pub record Attempt : Type 0 where
  pub output : List Text
  pub header_lines : List Text
  pub result : CurlResult
  pub within_timeout : Bool

pub record HttpResponse : Type 0 where
  pub status : ℕ
  pub raw_body : Text
  pub headers : List (Text × Text)

-- A finished call: the response, what was logged, and the milliseconds slept between attempts.
pub record Done : Type 0 where
  pub response : HttpResponse
  pub logged : List LogEntry
  pub slept_ms : List ℕ

unfoldable pub is_retryable_error : ℕ → Bool
is_retryable_error http_code = eqb http_code 429 || eqb (http_code / 100) 5

abbrev curl_error : CurlResult → Text
curl_error couldnt_connect = codes "connection_error"
curl_error timed_out = codes "timeout"
curl_error _ = codes "unknown"

-- The response from what the callbacks captured.
unfoldable pub response : ℕ → Attempt → HttpResponse
unfolding capture curl_capture_output_fun curl_capture_headers_fun
response http_code a = record {
  status = http_code;
  raw_body = capture curl_capture_output_fun [] a.output;
  headers = capture curl_capture_headers_fun [] a.header_lines;
}

-- What an attempt leads to: another one, perhaps after a pause, or an end.
pub data Next : Type 0 where
  retry : List ℕ → LogEntry → Next
  finish : HttpResponse → LogEntry → Next

-- An attempt that curl failed.
unfoldable pub failed : LogEntry → Attempt → ℕ → Next
unfolding response LogEntry.set_error LogEntry.set_attempt LogEntry.set_status_code
failed entry a n =
    let noted = LogEntry.set_error (curl_error a.result) entry in
    if a.within_timeout && ltb n 2
    then retry [] (LogEntry.set_attempt n false noted)
    else finish (response 400 a)
        (LogEntry.set_attempt n true (LogEntry.set_status_code (negsuc 0) noted))

-- An attempt that curl performed.
unfoldable pub answered : LogEntry → Attempt → ℕ → ℕ → Next
unfolding response is_retryable_error LogEntry.set_error LogEntry.set_success LogEntry.set_attempt
    LogEntry.set_status_code
answered entry a n http_code =
    let coded = LogEntry.set_status_code (pos http_code) entry in
    let noted =
      if eqb (http_code / 100) 2
      then LogEntry.set_success coded
      else LogEntry.set_error (codes "http_error") coded in
    if is_retryable_error http_code && ltb n 2
    then retry ((200 * 2 ^ n) ∷ []) (LogEntry.set_attempt n false noted)
    else finish (response http_code a) (LogEntry.set_attempt n true noted)

-- The body of `perform` from the call of curl, for attempt number `n`.
unfoldable pub decide : LogEntry → Attempt → ℕ → Next
unfolding failed answered
decide entry a n = elim a.result [
  | performed http_code ↦ answered entry a n http_code
  | _ ↦ failed entry a n
]

-- `perform`, on a source of attempts by number, with fuel for the recursion.
unfoldable pub perform : Text → Text → (ℕ → Attempt) → ℕ → ℕ → Option Done
unfolding decide LogEntry.new
perform method url world zero n = none
perform method url world (suc fuel) n =
    let again = perform method url world fuel (n + 1) in
    elim (decide (LogEntry.new method url) (world n) n) [
      | finish r e ↦ some (record { response = r; logged = e ∷ []; slept_ms = [] })
      | retry pause e ↦ elim again [
        | none ↦ none
        | some d ↦ some (record {
          response = d.response;
          logged = e ∷ d.logged;
          slept_ms = pause ++ d.slept_ms;
        })
      ]
    ]

-- `HttpClient::Get` without headers.
unfoldable pub get : Text → (ℕ → Attempt) → ℕ → Option Done
unfolding perform
get url world fuel = perform (codes "GET") url world fuel 0
