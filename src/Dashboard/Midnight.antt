-- ===== src/Dashboard/Midnight.antt =====
-- scanner/scheduler.py: what `/status` shows after the job at midnight.
use pms_scanner.Prelude.{
  ◌≡◌, refl, ◌∙◌, ap, true, some, List, [], ◌∷◌, map, Text, text_eq, All, All-map,
}
use mathlib.Core.Option
use pms_scanner.Prelude.Dict
use pms_scanner.Config.Assembly.{RawSettings, AppSettings, load_settings, valid, clean}
use pms_scanner.Config.Assembly.Names.{names_of, All-names}
use pms_scanner.Config.Assembly.Valid.{assemble_valid}
use pms_scanner.State.{PerEnvRunState, BatchRunState, fresh, new_state, reset_daily, zeroed}
use pms_scanner.State.Laws.{Update, env_state, calls, own, effects, reset_daily_lem}
use pms_scanner.State.Fresh.{calls-new_state}
use pms_scanner.Scheduler.Register.{counters_reset, run_daily_reset}
use pms_scanner.Dashboard.{StatusPage, done, unconfigured, configure, env_status, status}
use pms_scanner.Dashboard.Events.{emit_event}
use pms_scanner.Dashboard.Status.{status-done}

reset_shown :
    (s : BatchRunState) (shown : Text → PerEnvRunState) (names : List Text)
    → All (λ name. env_state name s ≡ some (shown name)) names
    → All (λ name. env_state name (reset_daily s) ≡ some (zeroed (shown name))) names
reset_shown s shown names h =
    All-map _ _ (λ name k. reset_daily_lem name s ∙ ap (Option.map zeroed) k) names h

-- Under settings that `load_settings` accepts, the job at midnight, after whatever calls the runs
-- have made, leaves a state for which `/status` answers: it shows of each configured environment
-- what its own calls have made, with the counters and the errors zeroed and the current activity
-- and the times of the last run kept. One event tells the open dashboard.
pub midnight_is_shown :
    (resolve : Text → Text) (raw : RawSettings) (s : AppSettings) (trace : List (Text × Update))
    → load_settings resolve raw ≡ valid s
    → let (state, bus) =
        run_daily_reset s
          (calls trace (new_state s.machine (map (λ e. e.name) s.environments)))
          (record { has_loop = true; event_queue = [] }) in
      (bus.event_queue ≡ counters_reset s ∷ [])
      × ((page : StatusPage) × (status (configure s state unconfigured) ≡ done page)
          × (page.machine ≡ s.machine.name)
          × All
              (λ e.
                Dict.lookup e.name page.environments
                ≡ some (
                    env_status e
                      (zeroed (effects (own e.name trace) (fresh s.machine.name e.name)))))
              s.environments)
unfolding load_settings run_daily_reset emit_event
midnight_is_shown resolve raw s trace h = (
  refl,
  status-done (clean raw) _ (λ name. zeroed (effects (own name trace) (fresh s.machine.name name)))
      s (assemble_valid resolve (clean raw) s h).built
      (All-names _ s.environments (
        reset_shown (calls trace (new_state s.machine (names_of s.environments)))
          (λ name. effects (own name trace) (fresh s.machine.name name)) (names_of s.environments)
          (calls-new_state s.machine (names_of s.environments) trace))),
)
