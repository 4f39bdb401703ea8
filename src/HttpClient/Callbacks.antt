-- ===== src/HttpClient/Callbacks.antt =====
-- lib/http_client/src/http_client.cpp: what curl's callbacks do with the bytes of a response.
use atlas_system_agent.Base.{
  ℕ, ◌+◌, ◌-◌, List, [], ◌∷◌, ◌++◌, Text, Option, none, some, length, take, drop, eqb, ltb,
  if◌then◌else◌,
}
use atlas_system_agent.Base.Texts.{text_eq}
use atlas_system_agent.Base.Dict.{emplace}

-- `memchr`: the offset of the first byte that is `c`.
unfoldable pub memchr : ℕ → Text → Option ℕ
memchr c [] = none
memchr c (x ∷ xs) =
    let rest = memchr c xs in
    if eqb x c then some 0 else elim rest [ none ↦ none | some i ↦ some (i + 1) ]

unfoldable pub curl_capture_output_fun : Text → Text → Text
curl_capture_output_fun resp contents = resp ++ contents

-- A header has at least two more bytes behind the colon; the last byte, a line feed, is dropped. The
-- first value of a key stays.
unfoldable pub curl_capture_headers_fun : List (Text × Text) → Text → List (Text × Text)
unfolding memchr
curl_capture_headers_fun headers contents = elim (memchr b':' contents) [
  | none ↦ headers
  | some p ↦
      if ltb (p + 2) (length contents)
      then emplace (take p contents) (take (length contents - 1 - (p + 2)) (drop (p + 2) contents))
          headers
      else headers
]

-- The calls of a callback, in order.

unfoldable pub capture {ℓ} : {S : Type ℓ} → (S → Text → S) → S → List Text → S
capture f s [] = s
capture f s (c ∷ cs) = capture f (f s c) cs
