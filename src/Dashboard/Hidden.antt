-- ===== src/Dashboard/Hidden.antt =====
-- scanner/dashboard.py: the last run of an environment that has had a current file.
use pms_scanner.Prelude.{◌≡◌, refl, ap, ◌∙◌, Option, none, some, List, [], ◌∷◌, Text, text_eq}
use mathlib.Core.Option
use pms_scanner.Config.{Environment}
use pms_scanner.State.{PerEnvRunState, BatchRunState, or_keep_some}
use pms_scanner.State.Laws.{
  Update, env_state, calls, calls_isolated, own, effect, effects, pages, files, error, current,
  started, finished,
}
use pms_scanner.Dashboard.{env_status}

-- Some file is the current one.
abbrev pub HasFile : Option Text → Type 0
HasFile none = ⊥
HasFile (some file) = Unit

or_keep_some-HasFile : (new old : Option Text) → HasFile old → HasFile (or_keep_some new old)
or_keep_some-HasFile none old h = h
or_keep_some-HasFile (some file) old h = tt

effects-HasFile :
    (us : List Update) (st : PerEnvRunState)
    → HasFile st.current_file
    → HasFile (effects us st).current_file
unfolding effects
effects-HasFile [] st h = h
effects-HasFile (pages n ∷ us) st h = effects-HasFile us (effect (pages n) st) h
effects-HasFile (files n ∷ us) st h = effects-HasFile us (effect (files n) st) h
effects-HasFile (error r ∷ us) st h = effects-HasFile us (effect (error r) st) h
effects-HasFile (current file page total ∷ us) st h =
    effects-HasFile us (effect (current file page total) st)
      (or_keep_some-HasFile file st.current_file h)
effects-HasFile (started w ∷ us) st h = effects-HasFile us (effect (started w) st) h
effects-HasFile (finished w ∷ us) st h = effects-HasFile us (effect (finished w) st) h

HasFile-last_run :
    (env : Environment) (st : PerEnvRunState) (file : Option Text)
    → st.current_file ≡ file
    → HasFile file
    → (env_status env st).last_run ≡ none
unfolding env_status
HasFile-last_run env st none e h = absurd h
HasFile-last_run env st (some file) e h = rw e refl

-- Once an environment has a current file, no calls of the run state, of whatever runs and
-- whatever their arguments, bring its last run back to `/status`: it stays `None`.
pub last_run_hidden :
    (env : Environment) (trace : List (Text × Update)) (s : BatchRunState) (st : PerEnvRunState)
    → env_state env.name s ≡ some st
    → HasFile st.current_file
    → (st' : PerEnvRunState) × (env_state env.name (calls trace s) ≡ some st')
      × ((env_status env st').last_run ≡ none)
last_run_hidden env trace s st h k = (
  effects (own env.name trace) st,
  calls_isolated env.name trace s ∙ ap (Option.map (effects (own env.name trace))) h,
  HasFile-last_run env _ _ refl (effects-HasFile (own env.name trace) st k),
)
