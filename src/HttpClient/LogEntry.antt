-- ===== src/HttpClient/LogEntry.antt =====
-- lib/http_client/src/log_entry.h: the tags of the timer that an attempt records.
use atlas_system_agent.Base.{
  ℕ, zero, suc, [], ◌∷◌, Text, Option, none, some, codes, drop, length, eqb, ltb, if◌then◌else◌,
  Bool,
}
use atlas_system_agent.Base.Int.{ℤ, negsuc}

-- `std::find`: the rest of the text from the first `c`, empty at the end.
unfoldable pub from : ℕ → Text → Text
from c [] = []
from c (x ∷ xs) = let rest = from c xs in if eqb x c then x ∷ xs else rest

-- The text in front of the first `c`.
unfoldable pub upto : ℕ → Text → Text
upto c [] = []
upto c (x ∷ xs) = let rest = upto c xs in if eqb x c then [] else x ∷ rest

-- The C string at the colon: it stops at a null byte.
unfoldable pub path_from : Text → Text
unfolding from upto
path_from [] = codes "/"
path_from (c ∷ cs) = elim (from b':' (c ∷ cs)) [
  | [] ↦ c ∷ cs
  | p ∷ ps ↦
      if ltb (length (upto 0 (p ∷ ps))) 3
      then c ∷ cs
      else elim (from b'/' (drop 3 (p ∷ ps))) [ [] ↦ codes "/" | s ∷ ss ↦ upto b'?' (s ∷ ss) ]
]

-- The status code tag, the final tag, the name of the attempt, and the status and result tags.
pub record LogEntry : Type 0 where
  pub endpoint : Text
  pub method : Text
  pub http_status : ℤ
  pub ipc_attempt : Option (Text × Bool)
  pub ipc_status : Option (Text × Text)

unfoldable pub new : Text → Text → LogEntry
unfolding path_from
new method url = record {
  endpoint = path_from url;
  method = method;
  http_status = negsuc 0;
  ipc_attempt = none;
  ipc_status = none;
}

unfoldable pub set_status_code : ℤ → LogEntry → LogEntry
set_status_code code e = record e { http_status = code }

unfoldable pub attempt : ℕ → Text
attempt zero = codes "initial"
attempt (suc zero) = codes "second"
attempt (suc (suc n)) = codes "third_up"

unfoldable pub set_attempt : ℕ → Bool → LogEntry → LogEntry
unfolding attempt
set_attempt attempt_number is_final e = record e {
  ipc_attempt = some (attempt attempt_number, is_final);
}

unfoldable pub set_error : Text → LogEntry → LogEntry
set_error error e = record e { ipc_status = some (error, codes "failure") }

unfoldable pub set_success : LogEntry → LogEntry
set_success e = record e { ipc_status = some (codes "success", codes "success") }
