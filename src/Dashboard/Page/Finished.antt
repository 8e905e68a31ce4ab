-- ===== src/Dashboard/Page/Finished.antt =====
-- scanner/batch.py and scanner/dashboard.py: a file that is done, on the page.
use pms_scanner.Prelude.{ℕ, ◌≡◌, ◌≢◌, refl, ◌∙◌, inl, inr, some, [], ◌∷◌, Text, Listed}
use pms_scanner.Config.{Environment}
use pms_scanner.State.{PerEnvRunState}
use pms_scanner.State.Laws.{env_state}
use pms_scanner.Batch.World.{Outside, Runner, World}
use pms_scanner.Batch.File.{process_file}
use pms_scanner.Batch.File.Current.{process_file_leaves}
use pms_scanner.Dashboard.{env_status, per_env_run}
use pms_scanner.Dashboard.Page.{file_name, build_pane}

-- A current file of a run that has started is shown.
current_file_shown :
    (env : Environment) (name : Text) (when : ℕ) (st : PerEnvRunState)
    → name ≢ []
    → st.current_file ≡ some name
    → st.last_run_started_at ≡ some when
    → Listed (file_name name) (build_pane env.name (env_status env st)).parts
unfolding build_pane env_status per_env_run
current_file_shown env [] when st some_name current started = absurd (some_name refl)
current_file_shown env (c ∷ s) when st some_name current started =
    rw (current, started) (inr (inr (inl refl)))

-- In a configured environment whose run has started, the page goes on to show a file as the one in
-- progress after `_process_file` has dealt with it, whatever came of it.
pub finished_file_stays_on_page :
    (o : Outside) (r : Runner) (name : Text) (w : World) (st : PerEnvRunState) (when : ℕ)
    → name ≢ []
    → env_state r.env.name w.run ≡ some st
    → st.last_run_started_at ≡ some when
    → (st' : PerEnvRunState) × (env_state r.env.name (process_file o r name w).1.run ≡ some st')
      × Listed (file_name name) (build_pane r.env.name (env_status r.env st')).parts
finished_file_stays_on_page o r name w st when some_name h started =
    let (st', found, current, same) = process_file_leaves o r name w st h in
    (st', found, current_file_shown r.env name when st' some_name current (same ∙ started))
