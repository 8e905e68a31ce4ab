-- ===== src/Tests/Pages.antt =====
-- The theorems about texts that people read, at concrete data: the dashboard's page and its clients,
-- the names of uploaded pages and the errors of the settings.
use pms_scanner.Prelude.{
  ℕ, ◌+◌, ◌≤◌, ◌≡◌, ◌≢◌, refl, inl, true, none, some, List, [], ◌∷◌, ◌++◌, map, All, Listed, Text,
  codes, text_eq, nat_eq, length, arith,
}
use pms_scanner.Prelude.Int.{ℤ}
use pms_scanner.Prelude.Dict
use pms_scanner.Prelude.Texts.{includes}
use pms_scanner.FileName.{page_file_name}
use pms_scanner.FileName.Distinct.{page_file_names_differ}
use pms_scanner.Config.Message.{FieldError, error_place, error_text, format}
use pms_scanner.Config.Message.Named.{format_names_all}
use pms_scanner.State.{PerEnvRunState, new_state}
use pms_scanner.State.Laws.{env_state, calls, own}
use pms_scanner.Batch.World.{World}
use pms_scanner.Batch.File.{process_file}
use pms_scanner.Dashboard.{status, configure, unconfigured, env_status}
use pms_scanner.Dashboard.Events.Clients.{
  Turn, asks, emits, serve, with_loop, emitted, got, clients_share_events,
}
use pms_scanner.Dashboard.Page.{Page, Pane, file_name, build_pane, refresh}
use pms_scanner.Dashboard.Page.Shown.{IsPane, page_shows_environments}
use pms_scanner.Dashboard.Page.Finished.{finished_file_stays_on_page}
use pms_scanner.Tests.{outside, mac, scan, claimed, staging_state, run_state}
use pms_scanner.Tests.Settings.{raw_settings, settings, same_path}
use pms_scanner.Tests.Start.{loaded, trace}
use pms_scanner.Tests.Streams.{reset_event}

abbrev turns : List (Turn Text)
turns = asks 1 ∷ emits reset_event ∷ asks 2 ∷ asks 1 ∷ emits reset_event ∷ []

clients_share_events_example :
    let (ds, s) = serve turns (with_loop (reset_event ∷ [])) in
    (map (λ d. d.1) ds ++ s.event_queue ≡ (reset_event ∷ []) ++ emitted turns)
    × ((j k : ℕ)
        → j ≢ k
        → length (got j ds) + length (got k ds)
          ≤ length (reset_event ∷ []) + length (emitted turns))
clients_share_events_example = clients_share_events turns (reset_event ∷ [])

abbrev fixed : ℤ → Text
fixed n = codes "0.000"

abbrev blank : Page
blank = record { machine = []; ntp_text = []; ntp_warns = none; panes = [] }

page_shows_environments_example :
    let answer = status (
      configure settings
        (calls trace (new_state settings.machine (map (λ e. e.name) settings.environments)))
        unconfigured) in
    All
      (λ e.
        (pane : Pane) × Listed pane (refresh fixed (λ names. names) answer blank).panes
        × IsPane e (own e.name trace) pane)
      settings.environments
page_shows_environments_example =
    page_shows_environments fixed (λ names. names) same_path raw_settings settings trace blank
      (λ names x l. l) (λ names x l. l) loaded

abbrev started_state : PerEnvRunState
started_state = record staging_state { last_run_started_at = some 7 }

abbrev started_world : World
started_world = record claimed {
  run = record run_state { per_env = (codes "staging", started_state) ∷ [] };
}

started_here : env_state (codes "staging") started_world.run ≡ some started_state
unfolding Dict.lookup text_eq nat_eq
started_here = refl

finished_file_stays_on_page_example :
    (st' : PerEnvRunState) × (env_state
        (codes "staging")
        (process_file outside mac scan started_world).1.run
      ≡ some st')
    × Listed (file_name scan) (build_pane (codes "staging") (env_status mac.env st')).parts
finished_file_stays_on_page_example =
    finished_file_stays_on_page outside mac scan started_world started_state 7 (λ e. cc)
      started_here refl

page_file_names_differ_example : page_file_name scan 7 ≢ page_file_name scan 1007
page_file_names_differ_example = page_file_names_differ scan 7 1007 (λ e. omega (arith, e))

abbrev missing : FieldError
missing = record {
  loc = codes "env_staging" ∷ codes "watch_dir" ∷ [];
  msg = codes "Field required";
}

abbrev bad_scheme : FieldError
bad_scheme = record { loc = []; msg = codes "Value error, a URL must use https" }

format_names_all_example :
    (includes (error_place missing) (format (missing ∷ bad_scheme ∷ []) []) ≡ true)
    × (includes (error_text missing) (format (missing ∷ bad_scheme ∷ []) []) ≡ true)
format_names_all_example = format_names_all (missing ∷ bad_scheme ∷ []) [] missing (inl refl)
