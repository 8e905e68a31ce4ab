-- ===== src/State/After.antt =====
-- scanner/state.py: what the calls of an environment leave in its record, read off the calls.
use pms_scanner.Prelude.{ℕ, ◌≡◌, refl, Option, none, some, List, [], ◌∷◌, Text}
use pms_scanner.State.{PerEnvRunState}
use pms_scanner.State.Laws.{
  Update, pages, files, error, current, started, finished, effect, effects,
}

-- The file that was named last.
abbrev pub file_after : List Update → Option Text → Option Text
file_after [] old = old
file_after (current (some file) page total ∷ us) old = file_after us (some file)
file_after (u ∷ us) old = file_after us old

-- The time of the last start, and of the last end, of a run.
abbrev pub start_after : List Update → Option ℕ → Option ℕ
start_after [] old = old
start_after (started when ∷ us) old = start_after us (some when)
start_after (u ∷ us) old = start_after us old

abbrev pub end_after : List Update → Option ℕ → Option ℕ
end_after [] old = old
end_after (finished when ∷ us) old = end_after us (some when)
end_after (u ∷ us) old = end_after us old

-- The current file and the times of an environment after its calls are those that the calls named
-- last.
pub effects_after :
    (us : List Update) (st : PerEnvRunState)
    → ((effects us st).current_file ≡ file_after us st.current_file)
      × ((effects us st).last_run_started_at ≡ start_after us st.last_run_started_at)
      × ((effects us st).last_run_finished_at ≡ end_after us st.last_run_finished_at)
unfolding effects
effects_after [] st = (refl, refl, refl)
effects_after (pages n ∷ us) st = effects_after us (effect (pages n) st)
effects_after (files n ∷ us) st = effects_after us (effect (files n) st)
effects_after (error r ∷ us) st = effects_after us (effect (error r) st)
effects_after (current none page total ∷ us) st =
    effects_after us (effect (current none page total) st)
effects_after (current (some file) page total ∷ us) st =
    effects_after us (effect (current (some file) page total) st)
effects_after (started when ∷ us) st = effects_after us (effect (started when) st)
effects_after (finished when ∷ us) st = effects_after us (effect (finished when) st)
