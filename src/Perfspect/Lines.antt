-- ===== src/Perfspect/Lines.antt =====
-- lib/collectors/perfspect/src/perfspect.cpp: every line that the process prints is sent, while it
-- prints no more than one at a turn.
use atlas_system_agent.Base.{
  ◌≡◌, refl, Bool, true, false, Option, none, some, List, [], ◌∷◌, Text, map, ap, sym, ◌∙◌,
}
use atlas_system_agent.Metrics.{Double, Metric}
use atlas_system_agent.Perfspect.{
  ProcessAnswers, Completion, read_line, Perfspect, new_perfspect, start_script, cleanup_process,
  extract_line, poll, read_output, split_commas, parse_perfspect_line, PerfspectData, send_metrics,
  send_parsed, respond, gather_metrics, gather_all,
}

-- The process runs, and its header has been read or not.
abbrev running_script : Bool → Perfspect
running_script header = record {
  script = true;
  reading = true;
  first_iteration = header;
  pending_line = [];
  last_async_error = false;
}

abbrev pub printed : Option Text → List Completion
printed none = []
printed (some line) = read_line line ∷ []

-- The process runs at a turn, and has printed this since the turn before.
abbrev pub prints : ProcessAnswers → List Completion → ProcessAnswers
prints a completions = record {
  running = true;
  completions = completions;
  cleanup = a.cleanup;
  launched = a.launched;
}

-- The turns after the first output, with the lines that they find.
abbrev pub lines_turns : List (ProcessAnswers × Option Text) → List ProcessAnswers
lines_turns = map λ t. prints t.0 (printed t.1)

module _ {F D : Type 0} ⦃ff : Double F⦄ (widen : F → D) (from_chars : Text → Option F) where
  abbrev metrics_of : Option (PerfspectData F) → List (Metric D)
  metrics_of none = []
  metrics_of (some d) = send_metrics widen from_chars d

  abbrev pub line_metrics : Option Text → List (Metric D)
  line_metrics none = []
  line_metrics (some line) = metrics_of (parse_perfspect_line widen from_chars line)

  send_parsed_lem :
      (o : Option (PerfspectData F)) (s : Perfspect)
      → ((send_parsed widen from_chars o s).0 ≡ metrics_of o)
        × ((send_parsed widen from_chars o s).1 ≡ s)
  unfolding send_parsed
  send_parsed_lem none s = (refl, refl)
  send_parsed_lem (some d) s = (refl, refl)

  parse_empty : parse_perfspect_line widen from_chars [] ≡ none
  unfolding parse_perfspect_line split_commas
  parse_empty = refl

  -- The result of a turn, but for what it returns.
  abbrev Sends : List (Metric D) → ProcessAnswers → Perfspect → Perfspect → Type 0
  Sends sent a s next =
      ((gather_metrics widen from_chars a s).0 ≡ sent)
      × ((gather_metrics widen from_chars a s).1 ≡ next)

  start_lem :
      (a : ProcessAnswers) → a.launched ≡ true → Sends [] a new_perfspect (running_script true)
  unfolding gather_metrics new_perfspect start_script cleanup_process
  start_lem a e = (refl, rw e refl)

  steady :
      (a : ProcessAnswers) (line : Option Text)
      → Sends
          (line_metrics line)
          (prints a (printed line))
          (running_script false)
          (running_script false)
  unfolding gather_metrics respond read_output poll extract_line
  steady a none = (refl, refl)
  steady a (some []) = (ap metrics_of (sym parse_empty), refl)
  steady a (some (c ∷ line)) = send_parsed_lem (parse_perfspect_line widen from_chars (c ∷ line)) _

  first :
      (a : ProcessAnswers) (header : Text) (line : Option Text)
      → Sends
          (line_metrics line)
          (prints a (read_line header ∷ printed line))
          (running_script true)
          (running_script false)
  unfolding gather_metrics respond read_output poll extract_line
  first a header none = (refl, refl)
  first a header (some []) = (ap metrics_of (sym parse_empty), refl)
  first a header (some (c ∷ line)) =
      send_parsed_lem (parse_perfspect_line widen from_chars (c ∷ line)) _

  Sends-gather_all :
      (sent : List (Metric D)) (a : ProcessAnswers) (turns : List ProcessAnswers)
      (s next : Perfspect)
      → Sends sent a s next
      → (gather_all widen from_chars (a ∷ turns) s).0
        ≡ sent ∷ (gather_all widen from_chars turns next).0
  unfolding gather_all
  Sends-gather_all sent a turns s next (same, after) =
      ap (λ m. m ∷ (gather_all widen from_chars turns (gather_metrics widen from_chars a s).1).0)
        same
      ∙ ap (λ t. sent ∷ (gather_all widen from_chars turns t).0) after

  all_sent :
      (turns : List (ProcessAnswers × Option Text))
      → (gather_all widen from_chars (lines_turns turns) (running_script false)).0
        ≡ map (λ t. line_metrics t.1) turns
  unfolding gather_all
  all_sent [] = refl
  all_sent ((a, line) ∷ turns) =
      Sends-gather_all (line_metrics line) (prints a (printed line)) (lines_turns turns)
        (running_script false) (running_script false) (steady a line)
      ∙ ap (λ more. line_metrics line ∷ more) (all_sent turns)

  -- From the turn that starts the process on, while it runs and prints the header first and then at
  -- most one line between two turns, the turns send the metrics of every line that can be parsed,
  -- in order, and nothing else.
  pub gather_all-lines :
      (a b : ProcessAnswers) (header : Text) (line : Option Text)
      (turns : List (ProcessAnswers × Option Text))
      → a.launched ≡ true
      → (gather_all widen from_chars
          (a ∷ prints b (read_line header ∷ printed line) ∷ lines_turns turns)
          new_perfspect).0
        ≡ [] ∷ line_metrics line ∷ map (λ t. line_metrics t.1) turns
  gather_all-lines a b header line turns launched =
      let output = prints b (read_line header ∷ printed line) in
      let rest = lines_turns turns in
      Sends-gather_all [] a (output ∷ rest) new_perfspect (running_script true)
        (start_lem a launched)
      ∙ ap (λ more. [] ∷ more)
          (Sends-gather_all (line_metrics line) output rest (running_script true)
              (running_script false) (first b header line)
            ∙ ap (λ more. line_metrics line ∷ more) (all_sent turns))
