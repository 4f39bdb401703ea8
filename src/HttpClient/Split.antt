-- ===== src/HttpClient/Split.antt =====
-- lib/http_client/src/http_client.cpp, lib/http_client/src/log_entry.h: header lines and URLs, taken apart.
use atlas_system_agent.Base.{
  ℕ, ◌+◌, ◌-◌, ◌≡◌, ap, refl, true, false, List, [], ◌∷◌, ◌++◌, Text, some, length, length-append,
  take, drop, eqb, ltb, All, arith,
}
use native.Mathlib.Nat.{zero-add, suc-add}
use atlas_system_agent.Base.Dict.{emplace}
use atlas_system_agent.Base.Texts.{text_eq}
use atlas_system_agent.HttpClient.Callbacks.{memchr, curl_capture_headers_fun}
use atlas_system_agent.HttpClient.LogEntry.{from, upto, path_from}

-- The text does not hold the byte.
abbrev pub Without : ℕ → Text → Type 0
Without c xs = All (λ x. eqb x c ≡ false) xs

memchr-append : (c : ℕ) (xs ys : Text) → Without c xs → memchr c (xs ++ c ∷ ys) ≡ some (length xs)
unfolding memchr
memchr-append c [] ys h = ground arith
memchr-append c (x ∷ xs) ys h = ground (arith, memchr-append c xs ys h.1)

from-append : (c : ℕ) (xs ys : Text) → Without c xs → from c (xs ++ c ∷ ys) ≡ c ∷ ys
unfolding from
from-append c [] ys h = ground arith
from-append c (x ∷ xs) ys h = ground (arith, from-append c xs ys h.1)

upto-append : (c : ℕ) (xs ys : Text) → Without c xs → upto c (xs ++ c ∷ ys) ≡ xs
unfolding upto
upto-append c [] ys h = ground arith
upto-append c (x ∷ xs) ys h = ground (arith, upto-append c xs ys h.1)

take-length : (xs ys : Text) → take (length xs) (xs ++ ys) ≡ xs
take-length [] ys = refl
take-length (x ∷ xs) ys = ap (λ r. x ∷ r) (take-length xs ys)

drop-length : (n : ℕ) (xs ys : Text) → drop (length xs + n) (xs ++ ys) ≡ drop n ys
drop-length n [] ys = rw (zero-add n) refl
drop-length n (x ∷ xs) ys = rw (suc-add (length xs) n) (drop-length n xs ys)

-- The callback from what its search finds.
capture_at :
    (headers : List (Text × Text)) (contents key value : Text) (p : ℕ)
    → memchr b':' contents ≡ some p
    → ltb (p + 2) (length contents) ≡ true
    → take p contents ≡ key
    → take (length contents - 1 - (p + 2)) (drop (p + 2) contents) ≡ value
    → curl_capture_headers_fun headers contents ≡ emplace key value headers
unfolding curl_capture_headers_fun
capture_at headers contents key value p m l k v = rw (m, l, k, v, curl_capture_headers_fun) refl

-- A header line with a colon, one more byte, a value and a last byte is stored under what stands
-- in front of its first colon, without that last byte, unless the key is there already.
pub curl_capture_headers_fun_lem :
    (headers : List (Text × Text)) (key value : Text) (space last : ℕ)
    → Without b':' key
    → curl_capture_headers_fun headers (key ++ b':' ∷ space ∷ (value ++ last ∷ []))
      ≡ emplace key value headers
unfolding curl_capture_headers_fun
curl_capture_headers_fun_lem headers key value space last h =
    let rest : Text = b':' ∷ space ∷ (value ++ last ∷ []) in
    let len : length (key ++ rest) ≡ length key + (3 + length value) =
      omega (arith, length-append key rest, length-append value (last ∷ [])) in
    let long : ltb (length key + 2) (length (key ++ rest)) ≡ true = ground arith in
    let count : length (key ++ rest) - 1 - (length key + 2) ≡ length value = omega arith in
    capture_at headers (key ++ rest) key value (length key)
      (memchr-append b':' key (space ∷ (value ++ last ∷ [])) h) long (take-length key rest)
      (rw (drop-length 2 key rest, count) (take-length value (last ∷ [])))

-- `path_from` from what its searches find.
path_from_at :
    (url rest path query : Text)
    → from b':' url ≡ b':' ∷ b'/' ∷ b'/' ∷ rest
    → from b'/' rest ≡ b'/' ∷ path
    → upto b'?' (b'/' ∷ path) ≡ query
    → path_from url ≡ query
unfolding path_from upto
path_from_at [] rest path query p s q = ground arith
path_from_at (c ∷ cs) rest path query p s q =
    let long : ltb (length (upto 0 (b':' ∷ b'/' ∷ b'/' ∷ rest))) 3 ≡ false = ground arith in
    rw (p, path_from, long, s, q) refl

-- The endpoint of a URL with a scheme, a host and a path is the path, without the query.
pub path_from_lem :
    (scheme host path query : Text)
    → Without b':' scheme
    → Without b'/' host
    → Without b'?' path
    → path_from (scheme ++ b':' ∷ b'/' ∷ b'/' ∷ (host ++ b'/' ∷ (path ++ b'?' ∷ query)))
      ≡ b'/' ∷ path
unfolding path_from
path_from_lem scheme host path query hs hh hp =
    let rest : Text = path ++ b'?' ∷ query in
    let after : Text = host ++ b'/' ∷ rest in
    path_from_at (scheme ++ b':' ∷ b'/' ∷ b'/' ∷ after) after rest (b'/' ∷ path)
      (from-append b':' scheme (b'/' ∷ b'/' ∷ after) hs) (from-append b'/' host rest hh)
      (upto-append b'?' (b'/' ∷ path) query (refl, hp))
