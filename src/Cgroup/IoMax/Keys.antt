-- ===== src/Cgroup/IoMax/Keys.antt =====
-- cgroup.cpp: what storing the value of a key does to each field of a line of io.max.
use atlas_system_agent.Base.{
  ◌⊎◌, inl, inr, false, Bool-cases, text_beq, ◌≡◌, refl, sym, ◌∙◌, ap, true, Option, some, [], ◌∷◌,
  ◌++◌, append-nil, Text, codes, if◌then◌else◌, ◌==◌, text_eq, text_beq_iff,
}
use atlas_system_agent.Base.Outcome.{ok, err, thrown}
use atlas_system_agent.Cgroup.Guards.{thrown_not_ok, guarded_true, guarded_false, is_none-to_list}
use atlas_system_agent.Cgroup.Fields.{is_none, to_list}
use atlas_system_agent.Cgroup.IoMax.{IoThrottle, set_limit}

pub data Limit : Type 0 where
  rbps wbps riops wiops : Limit

abbrev pub key_of : Limit → Text
key_of rbps = codes "rbps"
key_of wbps = codes "wbps"
key_of riops = codes "riops"
key_of wiops = codes "wiops"

abbrev pub limit_of : {D : Type 0} → Limit → IoThrottle D → Option D
limit_of rbps s = s.r_bps
limit_of wbps s = s.w_bps
limit_of riops s = s.r_iops
limit_of wiops s = s.w_iops

abbrev put : {D : Type 0} → Limit → IoThrottle D → D → IoThrottle D
put rbps s v = record s { r_bps = some v }
put wbps s v = record s { w_bps = some v }
put riops s v = record s { r_iops = some v }
put wiops s v = record s { w_iops = some v }

set_limit-key_of :
    {D : Type 0} (s : IoThrottle D) (v : D) (j : Limit)
    → set_limit s (key_of j) v ≡ (if is_none (limit_of j s) then ok (put j s v) else err thrown)
unfolding set_limit text_beq
set_limit-key_of s v rbps = refl
set_limit-key_of s v wbps = refl
set_limit-key_of s v riops = refl
set_limit-key_of s v wiops = refl

put-to_list :
    {D : Type 0} (s : IoThrottle D) (v : D) (j k : Limit)
    → is_none (limit_of j s) ≡ true
    → to_list (limit_of k (put j s v))
      ≡ to_list (limit_of k s) ++ (if key_of j == key_of k then v ∷ [] else [])
unfolding text_beq
put-to_list s v rbps rbps e = ap (λ l. l ++ (v ∷ [])) (sym (is_none-to_list (s.r_bps) e))
put-to_list s v rbps wbps e = sym (append-nil (to_list (s.w_bps)))
put-to_list s v rbps riops e = sym (append-nil (to_list (s.r_iops)))
put-to_list s v rbps wiops e = sym (append-nil (to_list (s.w_iops)))
put-to_list s v wbps wbps e = ap (λ l. l ++ (v ∷ [])) (sym (is_none-to_list (s.w_bps) e))
put-to_list s v wbps rbps e = sym (append-nil (to_list (s.r_bps)))
put-to_list s v wbps riops e = sym (append-nil (to_list (s.r_iops)))
put-to_list s v wbps wiops e = sym (append-nil (to_list (s.w_iops)))
put-to_list s v riops riops e = ap (λ l. l ++ (v ∷ [])) (sym (is_none-to_list (s.r_iops) e))
put-to_list s v riops rbps e = sym (append-nil (to_list (s.r_bps)))
put-to_list s v riops wbps e = sym (append-nil (to_list (s.w_bps)))
put-to_list s v riops wiops e = sym (append-nil (to_list (s.w_iops)))
put-to_list s v wiops wiops e = ap (λ l. l ++ (v ∷ [])) (sym (is_none-to_list (s.w_iops) e))
put-to_list s v wiops rbps e = sym (append-nil (to_list (s.r_bps)))
put-to_list s v wiops wbps e = sym (append-nil (to_list (s.w_bps)))
put-to_list s v wiops riops e = sym (append-nil (to_list (s.r_iops)))

classify :
    (key : Text) → ((j : Limit) × (key ≡ key_of j)) ⊎ ((j : Limit) → (key == key_of j) ≡ false)
classify key = elim (Bool-cases (key == key_of rbps)) [
  | inl e ↦ inl (rbps, (text_beq_iff key (key_of rbps)).0 e)
  | inr e0 ↦ elim (Bool-cases (key == key_of wbps)) [
    | inl e ↦ inl (wbps, (text_beq_iff key (key_of wbps)).0 e)
    | inr e1 ↦ elim (Bool-cases (key == key_of riops)) [
      | inl e ↦ inl (riops, (text_beq_iff key (key_of riops)).0 e)
      | inr e2 ↦ elim (Bool-cases (key == key_of wiops)) [
        | inl e ↦ inl (wiops, (text_beq_iff key (key_of wiops)).0 e)
        | inr e3 ↦ inr (λ j. elim j as (λ k. (key == key_of k) ≡ false) [
          | rbps ↦ e0
          | wbps ↦ e1
          | riops ↦ e2
          | wiops ↦ e3
        ])
      ]
    ]
  ]
]

set_limit-none :
    {D : Type 0} (s : IoThrottle D) (key : Text) (v : D)
    → ((j : Limit) → (key == key_of j) ≡ false)
    → set_limit s key v ≡ err thrown
unfolding set_limit
set_limit-none s key v unnamed = rw (unnamed rbps, unnamed wbps, unnamed riops, unnamed wiops) refl

pub set_limit-to_list :
    {D : Type 0} (s : IoThrottle D) (key : Text) (v : D) {t : IoThrottle D} (k : Limit)
    → set_limit s key v ≡ ok t
    → to_list (limit_of k t) ≡ to_list (limit_of k s) ++ (if key == key_of k then v ∷ [] else [])
set_limit-to_list s key v {t} k e = elim (classify key) [
  | inr unnamed ↦ absurd (thrown_not_ok (sym (set_limit-none s key v unnamed) ∙ e))
  | inl (j, named) ↦
      let stored = sym (set_limit-key_of s v j) ∙ ap (λ x. set_limit s x v) (sym named) ∙ e in
      stored_in j stored
      ∙ ap (λ x. to_list (limit_of k s) ++ (if x == key_of k then v ∷ [] else [])) (sym named)
]
  where
    stored_in :
        (j : Limit)
        → (if is_none (limit_of j s) then ok (put j s v) else err thrown) ≡ ok t
        → to_list (limit_of k t)
          ≡ to_list (limit_of k s) ++ (if key_of j == key_of k then v ∷ [] else [])
    stored_in j stored = elim (Bool-cases (is_none (limit_of j s))) [
      | inr full ↦ absurd (guarded_false (put j s v) full stored)
      | inl free ↦
          ap (λ x. to_list (limit_of k x)) (sym (guarded_true free stored))
          ∙ put-to_list s v j k free
    ]
