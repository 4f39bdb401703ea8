-- ===== src/ServiceMonitor/ProcStat/RoundTrip.antt =====
-- The fields behind the command name of /proc/[pid]/stat are read whatever the name holds.
use atlas_system_agent.Base.{
  ℕ, zero, suc, ◌<◌, ◌≤◌, ◌≡◌, refl, ◌∙◌, ap, true, false, none, some, List, [], ◌∷◌, ◌++◌, arith,
  Text, eqb, All, length, get_elem?, append-nil,
}
use atlas_system_agent.Base.Numbers.{stoul}
use atlas_system_agent.StrSplit.{StrSplit, IsStrSplit, blank, skip_whitespace}
use atlas_system_agent.ServiceMonitor.ProcStat.{
  after_last, tokenize_post_comm, parse_process_times, parse_rss,
}

-- A field: not blank, and with no space and no ')'.
pub record IsField (f : Text) : Type 0 where
  pub no_blank : All (λ c. blank c ≡ false) f
  pub no_paren : All (λ c. eqb c b')' ≡ false) f
  pub kept : skip_whitespace f ≡ true

-- The fields, each behind a space.
abbrev pub spaced : List Text → Text
spaced [] = []
spaced (f ∷ fs) = b' ' ∷ (f ++ spaced fs)

abbrev NoParen : Text → Type 0
NoParen = All λ c. eqb c b')' ≡ false

after_last_absent : (s : Text) → NoParen s → after_last b')' s ≡ none
unfolding after_last
after_last_absent [] h = refl
after_last_absent (c ∷ s) h = rw (after_last_absent s h.1) (ground arith)

after_last_found : (comm s : Text) → NoParen s → after_last b')' (comm ++ b')' ∷ s) ≡ some s
unfolding after_last
after_last_found [] s h = rw (after_last_absent s h)
after_last_found (c ∷ comm) s h = rw (after_last_found comm s h)

NoParen-append : (f s : Text) → NoParen f → NoParen s → NoParen (f ++ s)
NoParen-append [] s h k = k
NoParen-append (c ∷ f) s h k = (h.0, NoParen-append f s h.1 k)

spaced-NoParen : (fs : List Text) → All IsField fs → NoParen (spaced fs)
spaced-NoParen [] h = tt
spaced-NoParen (f ∷ fs) h =
    (refl, NoParen-append f (spaced fs) h.0.no_paren (spaced-NoParen fs h.1))

lt_of_get_elem? {ℓ} :
    {A : Type ℓ} (xs : List A) (i : ℕ) {x : A} → get_elem? xs i ≡ some x → i < length xs
lt_of_get_elem? [] i e = absurd (cc)
lt_of_get_elem? (x ∷ xs) zero e = omega arith
lt_of_get_elem? (x ∷ xs) (suc i) e = omega (arith, lt_of_get_elem? xs i e)

module _ (split : StrSplit) (laws : IsStrSplit split) where
  split_fields :
      (f : Text) (fs : List Text)
      → IsField f
      → All IsField fs
      → split blank skip_whitespace (f ++ spaced fs) ≡ f ∷ fs
  split_fields f [] h k =
      rw append-nil (laws.last_piece blank skip_whitespace f h.no_blank ∙ rw h.kept)
  split_fields f (g ∷ gs) h k =
      laws.first_piece blank skip_whitespace f b' ' (g ++ spaced gs) h.no_blank refl
      ∙ rw h.kept (ap (◌∷◌ f) (split_fields g gs k.0 k.1))

  split-spaced :
      (f : Text) (fs : List Text)
      → All IsField (f ∷ fs)
      → split blank skip_whitespace (spaced (f ∷ fs)) ≡ f ∷ fs
  split-spaced f fs h =
      laws.first_piece blank skip_whitespace [] b' ' (f ++ spaced fs) tt refl
      ∙ split_fields f fs h.0 h.1

  tokenize_lem :
      (comm : Text) (f : Text) (fs : List Text)
      → All IsField (f ∷ fs)
      → tokenize_post_comm split (comm ++ b')' ∷ spaced (f ∷ fs)) ≡ some (f ∷ fs)
  unfolding tokenize_post_comm
  tokenize_lem comm f fs h =
      rw (after_last_found comm (spaced (f ∷ fs)) (spaced-NoParen (f ∷ fs) h), tokenize_post_comm)
        (ap some (split-spaced f fs h))

  -- Whatever the command name holds, spaces and ')' included, the user and system times are the
  -- numbers in the fields 14 and 15 of the line.
  pub parse_process_times_fields :
      (comm f : Text) (fs lines : List Text) {ut st : Text} {u s : ℕ}
      → All IsField (f ∷ fs)
      → get_elem? (f ∷ fs) 11 ≡ some ut
      → get_elem? (f ∷ fs) 12 ≡ some st
      → stoul ut ≡ some u
      → stoul st ≡ some s
      → parse_process_times split ((comm ++ b')' ∷ spaced (f ∷ fs)) ∷ lines)
        ≡ some (record { u_time = u; s_time = s })
  unfolding parse_process_times
  parse_process_times_fields comm f fs lines h gu gs pu ps =
      let long = lt_of_get_elem? (f ∷ fs) 12 gs in
      rw (tokenize_lem comm f fs h, parse_process_times) (ground arith)

  -- In the same way the resident set size is the number in field 24.
  pub parse_rss_fields :
      (comm f : Text) (fs lines : List Text) {t : Text}
      → All IsField (f ∷ fs)
      → get_elem? (f ∷ fs) 21 ≡ some t
      → parse_rss split ((comm ++ b')' ∷ spaced (f ∷ fs)) ∷ lines) ≡ stoul t
  unfolding parse_rss
  parse_rss_fields comm f fs lines h g =
      let long = lt_of_get_elem? (f ∷ fs) 21 g in
      rw (tokenize_lem comm f fs h, parse_rss) (ground arith)

  -- A line with twelve fields or fewer behind the command name gives no times.
  pub parse_process_times_short :
      (comm f : Text) (fs lines : List Text)
      → All IsField (f ∷ fs)
      → length (f ∷ fs) ≤ 12
      → parse_process_times split ((comm ++ b')' ∷ spaced (f ∷ fs)) ∷ lines) ≡ none
  unfolding parse_process_times
  parse_process_times_short comm f fs lines h short =
      rw (tokenize_lem comm f fs h, parse_process_times) (ground arith)
