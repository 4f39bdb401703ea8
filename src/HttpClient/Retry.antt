-- ===== src/HttpClient/Retry.antt =====
-- lib/http_client/src/http_client.cpp: how often `perform` tries, what it returns and what it logs.
use atlas_system_agent.Base.{
  subst, sym, ap, ℕ, zero, suc, ◌≡◌, refl, Bool, true, false, ◌||◌, not, leb, Option, some, List,
  [], ◌∷◌, ◌++◌, Text, map, codes, arith, if◌then◌else◌,
}
use atlas_system_agent.HttpClient.LogEntry
use atlas_system_agent.HttpClient.LogEntry.{LogEntry}
use atlas_system_agent.HttpClient.Perform.{
  CurlResult, performed, couldnt_connect, timed_out, other_error, Attempt, Done, Next, retry,
  finish, decide, perform, get, failed, answered, response, is_retryable_error,
}

-- The attempt ends the call: its code is not retryable, or curl failed after the timeout.
abbrev pub is_last : Attempt → Bool
is_last a = elim a.result [
  | performed code ↦ not (is_retryable_error code)
  | _ ↦ not a.within_timeout
]

-- The status code that an attempt stands for.
abbrev pub code_of : Attempt → ℕ
code_of a = elim a.result [ performed code ↦ code | _ ↦ 400 ]

-- The number of the attempt whose response is returned: the first that ends the call, or else 2.
abbrev pub final_attempt : (ℕ → Attempt) → ℕ
final_attempt world = if is_last (world 0) then 0 else if is_last (world 1) then 1 else 2

-- The attempt tags of a log that ends with attempt `n`.
abbrev pub tags_upto : ℕ → List (Option (Text × Bool))
tags_upto zero = some (LogEntry.attempt 0, true) ∷ []
tags_upto (suc zero) = some (LogEntry.attempt 0, false) ∷ some (LogEntry.attempt 1, true) ∷ []
tags_upto _ =
    some (LogEntry.attempt 0, false)
    ∷ some (LogEntry.attempt 1, false)
    ∷ some (LogEntry.attempt 2, true)
    ∷ []

abbrev attempt_tag : LogEntry → Option (Text × Bool)
attempt_tag e = e.ipc_attempt

-- What a step does to the tags.
abbrev Ends : LogEntry → Attempt → ℕ → Next → Type 0
Ends e a n s = elim s [
  | finish r l ↦
      (r ≡ response (code_of a) a)
      × (l.ipc_attempt ≡ some (LogEntry.attempt n, true))
      × (is_last a || leb 2 n ≡ true)
  | retry p l ↦ (l.ipc_attempt ≡ some (LogEntry.attempt n, false)) × (is_last a || leb 2 n ≡ false)
]

decide-Ends_fields :
    (e : LogEntry) (o h : List Text) (r : CurlResult) (w : Bool) (n : ℕ)
    → let a : Attempt = record { output = o; header_lines = h; result = r; within_timeout = w } in
      Ends e a n (decide e a n)
unfolding decide failed answered is_retryable_error LogEntry.set_attempt LogEntry.set_status_code
    LogEntry.set_error LogEntry.set_success
decide-Ends_fields e o h (performed code) w n = ground arith
decide-Ends_fields e o h couldnt_connect w n = ground arith
decide-Ends_fields e o h timed_out w n = ground arith
decide-Ends_fields e o h other_error w n = ground arith

-- `decide` ends a call exactly at the attempts that `is_last` names, and at number 2.
decide-Ends : (e : LogEntry) (a : Attempt) (n : ℕ) → Ends e a n (decide e a n)
decide-Ends e a n = decide-Ends_fields e a.output a.header_lines a.result a.within_timeout n

-- The call returns the response of attempt `k`, and its log ends there.
abbrev pub ReturnsAttempt : Text → (ℕ → Attempt) → ℕ → Type 0
ReturnsAttempt url world k =
    (d : Done) × (get url world 3 ≡ some d)
    × (d.response ≡ response (code_of (world k)) (world k))
    × (map attempt_tag d.logged ≡ tags_upto k)

-- From the first attempt `perform` always returns: the response of the first attempt that ends the
-- call, or of the third. Each attempt up to that one is logged once, in order, and just the last log
-- entry is marked final.
pub get_retries :
    (url : Text) (world : ℕ → Attempt) → ReturnsAttempt url world (final_attempt world)
unfolding get
get_retries url world =
    steps (decide e (world 0) 0) (decide e (world 1) 1) (decide e (world 2) 2) refl refl refl
      (decide-Ends e (world 0) 0) (decide-Ends e (world 1) 1) (decide-Ends e (world 2) 2)
  where
    e : LogEntry
    e = LogEntry.new (codes "GET") url

    steps :
        (s t u : Next)
        → decide e (world 0) 0 ≡ s
        → decide e (world 1) 1 ≡ t
        → decide e (world 2) 2 ≡ u
        → Ends e (world 0) 0 s
        → Ends e (world 1) 1 t
        → Ends e (world 2) 2 u
        → ReturnsAttempt url world (final_attempt world)
    steps (finish r l) t u hs ht hu es et eu =
        let is : final_attempt world ≡ 0 = ground arith in
        subst (λ k. ReturnsAttempt url world k) (sym is)
          (
            record { response = r; logged = l ∷ []; slept_ms = [] },
            rw (hs, perform) refl,
            es.0,
            ap (λ tag. tag ∷ []) es.1,
          )
    steps (retry p l) (finish r k) u hs ht hu es et eu =
        let is : final_attempt world ≡ 1 = ground arith in
        subst (λ k. ReturnsAttempt url world k) (sym is)
          (
            record { response = r; logged = l ∷ k ∷ []; slept_ms = p ++ [] },
            rw (hs, ht, perform) refl,
            et.0,
            rw (es.0, et.1) refl,
          )
    steps (retry p l) (retry q k) (finish r j) hs ht hu es et eu =
        let is : final_attempt world ≡ 2 = ground arith in
        subst (λ k. ReturnsAttempt url world k) (sym is)
          (
            record { response = r; logged = l ∷ k ∷ j ∷ []; slept_ms = p ++ (q ++ []) },
            rw (hs, ht, hu, perform) refl,
            eu.0,
            rw (es.0, et.0, eu.1) refl,
          )
    steps (retry p l) (retry q k) (retry x j) hs ht hu es et eu = ground arith
