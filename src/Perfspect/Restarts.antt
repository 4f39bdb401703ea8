-- ===== src/Perfspect/Restarts.antt =====
-- lib/collectors/perfspect/src/perfspect.cpp: what `GatherMetrics` does after a read that failed.
use atlas_system_agent.Base.{
  ◌≡◌, refl, Bool, true, Option, none, List, [], ◌∷◌, Text, All, length, replicate, arith, if_cases,
  ap, ◌∙◌, sym, subst,
}
use atlas_system_agent.Metrics.{Double, Metric}
use atlas_system_agent.Perfspect.{
  ReadResult, ProcessAnswers, Cleanup, Perfspect, cleanup_process, start_script, poll, read_output,
  respond, gather_metrics, gather_all,
}

-- The script is started at each turn.
abbrev pub start_all : List ProcessAnswers → Perfspect → Perfspect
start_all [] s = s
start_all (a ∷ turns) s = start_all turns (start_script a s).0

cleanup_process-error :
    (a : Cleanup) (s : Perfspect) → (cleanup_process a s).0.last_async_error ≡ s.last_async_error
unfolding cleanup_process
cleanup_process-error a s = ground arith

start_script-error :
    (a : ProcessAnswers) (s : Perfspect)
    → (start_script a s).0.last_async_error ≡ s.last_async_error
unfolding start_script
start_script-error a s = ground (arith, cleanup_process-error a.cleanup s)

abbrev failed_read : ReadResult
failed_read = record { data_line = none; error = true }

-- Without a completion the error of the last read is read again.
read_output_failed :
    (s : Perfspect) → s.last_async_error ≡ true → read_output [] s ≡ (failed_read, s)
unfolding read_output poll
read_output_failed s e =
    if_cases (λ r. r ≡ (failed_read, s)) s.last_async_error _ _
      (λ _. ap (λ b. (record { data_line = none; error = b }, s)) e) (λ on. absurd (cc))

module _ {F D : Type 0} ⦃ff : Double F⦄ (widen : F → D) (from_chars : Text → Option F) where
  respond-failed :
      (a : ProcessAnswers) (s : Perfspect)
      → s.last_async_error ≡ true
      → a.completions ≡ []
      → ((respond widen from_chars a (read_output a.completions s)).0 ≡ [])
        × ((respond widen from_chars a (read_output a.completions s)).1 ≡ (start_script a s).0)
  unfolding respond read_output poll
  respond-failed a s e h =
      subst
        (λ r.
          ((respond widen from_chars a r).0 ≡ [])
          × ((respond widen from_chars a r).1 ≡ (start_script a s).0))
        (sym (ap (λ cs. read_output cs s) h ∙ read_output_failed s e)) (refl, refl)

  gather_metrics-failed :
      (a : ProcessAnswers) (s : Perfspect)
      → s.last_async_error ≡ true
      → a.completions ≡ []
      → ((gather_metrics widen from_chars a s).0 ≡ [])
        × ((gather_metrics widen from_chars a s).1 ≡ (start_script a s).0)
  unfolding gather_metrics
  gather_metrics-failed a s e h =
      let P =
        λ (r : List (Metric D) × Perfspect × Bool). (r.0 ≡ []) × (r.1 ≡ (start_script a s).0) in
      if_cases P s.script _ _
        (λ _. if_cases P a.running _ _ (λ _. respond-failed a s e h) (λ _. (refl, refl)))
        (λ _. (refl, refl))

  -- After a read that failed, every turn that comes before the output of the next process starts the
  -- process again, and sends nothing.
  pub gather_all-start_all :
      (turns : List ProcessAnswers) (s : Perfspect)
      → s.last_async_error ≡ true
      → All (λ a. a.completions ≡ []) turns
      → gather_all widen from_chars turns s ≡ (replicate (length turns) [], start_all turns s)
  unfolding gather_all
  gather_all-start_all [] s e h = refl
  gather_all-start_all (a ∷ turns) s e h =
      let (sent, next) = gather_metrics-failed a s e h.0 in
      let rest = gather_all-start_all turns (start_script a s).0 (start_script-error a s ∙ e) h.1 in
      rw (sent, next, rest, gather_all) refl
