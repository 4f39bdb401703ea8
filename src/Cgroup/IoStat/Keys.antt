-- ===== src/Cgroup/IoStat/Keys.antt =====
-- cgroup.cpp: what storing the value of a key does to each field of a line of io.stat.
use atlas_system_agent.Base.{
  ◌⊎◌, text_beq, ◌≡◌, refl, sym, ◌∙◌, ap, true, false, Option, some, [], ◌∷◌, ◌++◌, append-nil,
  Text, codes, if◌then◌else◌, ◌==◌, text_eq, text_beq_iff, inl, inr, Bool-cases,
}
use atlas_system_agent.Base.Outcome.{ok, err, thrown}
use atlas_system_agent.Cgroup.Guards.{thrown_not_ok, guarded_true, guarded_false, is_none-to_list}
use atlas_system_agent.Cgroup.Fields.{is_none, to_list}
use atlas_system_agent.Cgroup.IoStat.{IoStats, set_stat}

-- The six statistics, by key.
pub data Stat : Type 0 where
  rbytes wbytes rios wios dbytes dios : Stat

abbrev pub key_of : Stat → Text
key_of rbytes = codes "rbytes"
key_of wbytes = codes "wbytes"
key_of rios = codes "rios"
key_of wios = codes "wios"
key_of dbytes = codes "dbytes"
key_of dios = codes "dios"

abbrev pub stat_of : {D : Type 0} → Stat → IoStats D → Option D
stat_of rbytes s = s.r_bytes
stat_of wbytes s = s.w_bytes
stat_of rios s = s.r_operations
stat_of wios s = s.w_operations
stat_of dbytes s = s.d_bytes
stat_of dios s = s.d_operations

abbrev put : {D : Type 0} → Stat → IoStats D → D → IoStats D
put rbytes s v = record s { r_bytes = some v }
put wbytes s v = record s { w_bytes = some v }
put rios s v = record s { r_operations = some v }
put wios s v = record s { w_operations = some v }
put dbytes s v = record s { d_bytes = some v }
put dios s v = record s { d_operations = some v }

set_stat-key_of :
    {D : Type 0} (s : IoStats D) (v : D) (j : Stat)
    → set_stat s (key_of j) v ≡ (if is_none (stat_of j s) then ok (put j s v) else err thrown)
unfolding set_stat text_beq
set_stat-key_of s v rbytes = refl
set_stat-key_of s v wbytes = refl
set_stat-key_of s v rios = refl
set_stat-key_of s v wios = refl
set_stat-key_of s v dbytes = refl
set_stat-key_of s v dios = refl

put-to_list :
    {D : Type 0} (s : IoStats D) (v : D) (j k : Stat)
    → is_none (stat_of j s) ≡ true
    → to_list (stat_of k (put j s v))
      ≡ to_list (stat_of k s) ++ (if key_of j == key_of k then v ∷ [] else [])
unfolding text_beq
put-to_list s v rbytes rbytes e = ap (λ l. l ++ (v ∷ [])) (sym (is_none-to_list (s.r_bytes) e))
put-to_list s v rbytes wbytes e = sym (append-nil (to_list (s.w_bytes)))
put-to_list s v rbytes rios e = sym (append-nil (to_list (s.r_operations)))
put-to_list s v rbytes wios e = sym (append-nil (to_list (s.w_operations)))
put-to_list s v rbytes dbytes e = sym (append-nil (to_list (s.d_bytes)))
put-to_list s v rbytes dios e = sym (append-nil (to_list (s.d_operations)))
put-to_list s v wbytes wbytes e = ap (λ l. l ++ (v ∷ [])) (sym (is_none-to_list (s.w_bytes) e))
put-to_list s v wbytes rbytes e = sym (append-nil (to_list (s.r_bytes)))
put-to_list s v wbytes rios e = sym (append-nil (to_list (s.r_operations)))
put-to_list s v wbytes wios e = sym (append-nil (to_list (s.w_operations)))
put-to_list s v wbytes dbytes e = sym (append-nil (to_list (s.d_bytes)))
put-to_list s v wbytes dios e = sym (append-nil (to_list (s.d_operations)))
put-to_list s v rios rios e = ap (λ l. l ++ (v ∷ [])) (sym (is_none-to_list (s.r_operations) e))
put-to_list s v rios rbytes e = sym (append-nil (to_list (s.r_bytes)))
put-to_list s v rios wbytes e = sym (append-nil (to_list (s.w_bytes)))
put-to_list s v rios wios e = sym (append-nil (to_list (s.w_operations)))
put-to_list s v rios dbytes e = sym (append-nil (to_list (s.d_bytes)))
put-to_list s v rios dios e = sym (append-nil (to_list (s.d_operations)))
put-to_list s v wios wios e = ap (λ l. l ++ (v ∷ [])) (sym (is_none-to_list (s.w_operations) e))
put-to_list s v wios rbytes e = sym (append-nil (to_list (s.r_bytes)))
put-to_list s v wios wbytes e = sym (append-nil (to_list (s.w_bytes)))
put-to_list s v wios rios e = sym (append-nil (to_list (s.r_operations)))
put-to_list s v wios dbytes e = sym (append-nil (to_list (s.d_bytes)))
put-to_list s v wios dios e = sym (append-nil (to_list (s.d_operations)))
put-to_list s v dbytes dbytes e = ap (λ l. l ++ (v ∷ [])) (sym (is_none-to_list (s.d_bytes) e))
put-to_list s v dbytes rbytes e = sym (append-nil (to_list (s.r_bytes)))
put-to_list s v dbytes wbytes e = sym (append-nil (to_list (s.w_bytes)))
put-to_list s v dbytes rios e = sym (append-nil (to_list (s.r_operations)))
put-to_list s v dbytes wios e = sym (append-nil (to_list (s.w_operations)))
put-to_list s v dbytes dios e = sym (append-nil (to_list (s.d_operations)))
put-to_list s v dios dios e = ap (λ l. l ++ (v ∷ [])) (sym (is_none-to_list (s.d_operations) e))
put-to_list s v dios rbytes e = sym (append-nil (to_list (s.r_bytes)))
put-to_list s v dios wbytes e = sym (append-nil (to_list (s.w_bytes)))
put-to_list s v dios rios e = sym (append-nil (to_list (s.r_operations)))
put-to_list s v dios wios e = sym (append-nil (to_list (s.w_operations)))
put-to_list s v dios dbytes e = sym (append-nil (to_list (s.d_bytes)))

classify : (key : Text) → ((j : Stat) × (key ≡ key_of j)) ⊎ ((j : Stat) → (key == key_of j) ≡ false)
classify key = elim (Bool-cases (key == key_of rbytes)) [
  | inl e ↦ inl (rbytes, (text_beq_iff key (key_of rbytes)).0 e)
  | inr e0 ↦ elim (Bool-cases (key == key_of wbytes)) [
    | inl e ↦ inl (wbytes, (text_beq_iff key (key_of wbytes)).0 e)
    | inr e1 ↦ elim (Bool-cases (key == key_of rios)) [
      | inl e ↦ inl (rios, (text_beq_iff key (key_of rios)).0 e)
      | inr e2 ↦ elim (Bool-cases (key == key_of wios)) [
        | inl e ↦ inl (wios, (text_beq_iff key (key_of wios)).0 e)
        | inr e3 ↦ elim (Bool-cases (key == key_of dbytes)) [
          | inl e ↦ inl (dbytes, (text_beq_iff key (key_of dbytes)).0 e)
          | inr e4 ↦ elim (Bool-cases (key == key_of dios)) [
            | inl e ↦ inl (dios, (text_beq_iff key (key_of dios)).0 e)
            | inr e5 ↦ inr (λ j. elim j as (λ k. (key == key_of k) ≡ false) [
              | rbytes ↦ e0
              | wbytes ↦ e1
              | rios ↦ e2
              | wios ↦ e3
              | dbytes ↦ e4
              | dios ↦ e5
            ])
          ]
        ]
      ]
    ]
  ]
]

set_stat-none :
    {D : Type 0} (s : IoStats D) (key : Text) (v : D)
    → ((j : Stat) → (key == key_of j) ≡ false)
    → set_stat s key v ≡ err thrown
unfolding set_stat
set_stat-none s key v unnamed =
    rw (unnamed rbytes, unnamed wbytes, unnamed rios, unnamed wios, unnamed dbytes, unnamed dios)
      refl

pub set_stat-to_list :
    {D : Type 0} (s : IoStats D) (key : Text) (v : D) {t : IoStats D} (k : Stat)
    → set_stat s key v ≡ ok t
    → to_list (stat_of k t) ≡ to_list (stat_of k s) ++ (if key == key_of k then v ∷ [] else [])
set_stat-to_list s key v {t} k e = elim (classify key) [
  | inr unnamed ↦ absurd (thrown_not_ok (sym (set_stat-none s key v unnamed) ∙ e))
  | inl (j, named) ↦
      let stored = sym (set_stat-key_of s v j) ∙ ap (λ x. set_stat s x v) (sym named) ∙ e in
      stored_in j stored
      ∙ ap (λ x. to_list (stat_of k s) ++ (if x == key_of k then v ∷ [] else [])) (sym named)
]
  where
    stored_in :
        (j : Stat)
        → (if is_none (stat_of j s) then ok (put j s v) else err thrown) ≡ ok t
        → to_list (stat_of k t)
          ≡ to_list (stat_of k s) ++ (if key_of j == key_of k then v ∷ [] else [])
    stored_in j stored = elim (Bool-cases (is_none (stat_of j s))) [
      | inr full ↦ absurd (guarded_false (put j s v) full stored)
      | inl free ↦
          ap (λ x. to_list (stat_of k x)) (sym (guarded_true free stored))
          ∙ put-to_list s v j k free
    ]
