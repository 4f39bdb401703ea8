-- ===== src/Proc/Network/Format.antt =====
-- proc.cpp: the lines of the file of the network interfaces that `network_stats` reads.
use atlas_system_agent.Base.{
  ℕ, ◌^◌, ◌≤◌, ◌<◌, ◌≡◌, false, List, [], ◌∷◌, ◌++◌, Text, is_space, length, length-append,
  replicate, All, arith,
}
use atlas_system_agent.Stdio.Padded.{padded, padded-head, length-padded}

-- The eight counters of one direction.
pub record Counters : Type 0 where
  pub bytes : ℕ
  pub packets : ℕ
  pub errs : ℕ
  pub drop : ℕ
  pub fifo : ℕ
  pub frame_or_colls : ℕ
  pub seventh : ℕ
  pub eighth : ℕ

abbrev pub behind_bytes : Counters → List ℕ
behind_bytes c = c.packets ∷ c.errs ∷ c.drop ∷ c.fifo ∷ c.frame_or_colls ∷ c.seventh ∷ c.eighth ∷ []

abbrev pub counters : Counters → List ℕ
counters c = c.bytes ∷ behind_bytes c

-- A line of the file: the blanks in front of the name, and those in front of each number beyond the
-- one that separates it.
pub record Iface : Type 0 where
  pub blanks : ℕ
  pub name : Text
  pub received_blanks : List ℕ
  pub received : Counters
  pub sent_blanks : List ℕ
  pub sent : Counters

-- A name without blanks that fits the buffer, and counters that fit `int64_t`.
pub record IsIface (i : Iface) : Type 0 where
  pub solid : All (λ c. is_space c ≡ false) i.name
  pub short : length i.name < 4095
  pub received_fits : All (λ n. n < 2 ^ 63) (counters i.received)
  pub sent_fits : All (λ n. n < 2 ^ 63) (counters i.sent)

abbrev pub sent_numbers : Iface → Text → Text
sent_numbers i rest = padded i.sent_blanks (counters i.sent) (10 ∷ rest)

abbrev pub numbers : Iface → Text → Text
numbers i rest = padded i.received_blanks (counters i.received) (sent_numbers i rest)

pub numbers-head : (i : Iface) (rest : Text) → (t : Text) × (numbers i rest ≡ 32 ∷ t)
numbers-head i rest =
    padded-head i.received_blanks i.received.bytes (behind_bytes i.received) (sent_numbers i rest)

abbrev pub lines_of : List Iface → Text
lines_of [] = []
lines_of (i ∷ is) = replicate i.blanks 32 ++ (i.name ++ b':' ∷ numbers i (lines_of is))

-- A file has more bytes than interfaces.
pub length-lines_of : (is : List Iface) → length is ≤ length (lines_of is)
length-lines_of [] = omega arith
length-lines_of (i ∷ is) = omega (
  arith,
  length-append {0} (replicate i.blanks 32) (i.name ++ b':' ∷ numbers i (lines_of is)),
  length-append {0} i.name (b':' ∷ numbers i (lines_of is)),
  length-padded i.received_blanks (counters i.received) (sent_numbers i (lines_of is)),
  length-padded i.sent_blanks (counters i.sent) (10 ∷ lines_of is),
  length-lines_of is,
)
