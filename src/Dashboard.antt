-- ===== src/Dashboard.antt =====
-- scanner/dashboard.py: the routes `/status`, `/run` and `/healthz`.
pub mod Entry
pub mod Status
pub mod Trigger
pub mod Events
pub mod Hidden
pub mod Midnight
pub mod Page
use pms_scanner.Prelude.{
  ℕ, Bool, true, false, Option, none, some, List, [], ◌∷◌, map, Text, text_eq, contains,
  if◌then◌else◌, Result, ok, raised, key_error,
}
use pms_scanner.Prelude.Int.{ℤ}
use pms_scanner.Prelude.Dict
use pms_scanner.Prelude.Dict.{Dict}
use pms_scanner.Config.{Environment}
use pms_scanner.Config.Assembly.{AppSettings}
use pms_scanner.Ntp.{ClockSyncEvent, ClockSyncOutcome}
use pms_scanner.State.{ErrorRecord, PerEnvRunState, BatchRunState}
use pms_scanner.Scheduler.{enabled_environments}
use pms_scanner.Batch.World.{Runner}
use pms_scanner.Runs.{run_env_once}

-- `_settings` and `_run_state`
pub record Dashboard : Type 0 where
  pub settings : Option AppSettings
  pub run_state : Option BatchRunState

-- The module as it is imported, and `configure`.
abbrev pub unconfigured : Dashboard
unconfigured = record { settings = none; run_state = none }

unfoldable pub configure : AppSettings → BatchRunState → Dashboard → Dashboard
configure settings state d = record { settings = some settings; run_state = some state }

-- What `_per_env_run` returns; times are left as numbers.
pub record PerEnvRun : Type 0 where
  pub environment : Text
  pub current_file : Option Text
  pub current_page : ℕ
  pub total_pages : ℕ
  pub files_processed : ℕ
  pub pages_uploaded : ℕ
  pub errors : List ErrorRecord
  pub started_at : ℕ
  pub finished_at : Option ℕ

abbrev pub run_of : Text → PerEnvRunState → ℕ → PerEnvRun
run_of name st started_at = record {
  environment = name;
  current_file = st.current_file;
  current_page = st.current_page;
  total_pages = st.total_pages;
  files_processed = st.files_processed;
  pages_uploaded = st.pages_uploaded;
  errors = st.errors;
  started_at = started_at;
  finished_at = st.last_run_finished_at;
}

-- `_per_env_run`, for the record that `state.env(name)` returns.
unfoldable pub per_env_run : Text → PerEnvRunState → Option PerEnvRun
per_env_run name st = elim st.last_run_started_at [
  | none ↦ none
  | some started_at ↦ some (run_of name st started_at)
]

-- The entry of an environment in `_multi_env_status`.
pub record EnvStatus : Type 0 where
  pub enabled : Bool
  pub schedule_offset_seconds : ℕ
  pub backend_base_url : Text
  pub current_run : Option PerEnvRun
  pub last_run : Option PerEnvRun

abbrev pub is_some : {A : Type 0} → Option A → Bool
is_some none = false
is_some (some a) = true

unfoldable pub env_status : Environment → PerEnvRunState → EnvStatus
unfolding per_env_run
env_status env st =
    let active = is_some st.current_file in
    let run = per_env_run env.name st in
    record {
      enabled = env.enabled;
      schedule_offset_seconds = env.schedule_offset_seconds;
      backend_base_url = env.backend_base_url;
      current_run = if active then run else none;
      last_run = if active then none else run;
    }

pub record NtpStatus : Type 0 where
  pub source : Text
  pub last_measured_at : Option ℕ
  pub offset_seconds : Option ℤ
  pub outcome : Option ClockSyncOutcome
  pub last_drift_warning : Option ClockSyncEvent

unfoldable pub ntp_status : Text → Option ClockSyncEvent → Option ClockSyncEvent → NtpStatus
ntp_status source none warn = record {
  source = source;
  last_measured_at = none;
  offset_seconds = none;
  outcome = none;
  last_drift_warning = warn;
}
ntp_status source (some sync) warn = record {
  source = sync.source;
  last_measured_at = some sync.measured_at;
  offset_seconds = some sync.offset_seconds;
  outcome = some sync.outcome;
  last_drift_warning = warn;
}

pub record StatusPage : Type 0 where
  pub machine : Text
  pub ntp : NtpStatus
  pub environments : Dict Text EnvStatus

-- `for env in _settings.environments`: `_run_state.env` raises `KeyError` for a name it lacks.
unfoldable pub env_statuses :
    BatchRunState → List Environment → Dict Text EnvStatus → Result (Dict Text EnvStatus)
unfolding env_status
env_statuses state [] d = ok d
env_statuses state (env ∷ envs) d = elim (Dict.lookup env.name state.per_env) [
  | none ↦ raised key_error
  | some st ↦ env_statuses state envs (Dict.insert env.name (env_status env st) d)
]

abbrev page_of : AppSettings → BatchRunState → Result (Dict Text EnvStatus) → Result StatusPage
page_of settings state (raised exc) = raised exc
page_of settings state (ok environments) = ok (record {
  machine = settings.machine.name;
  ntp = ntp_status settings.options.ntp.source state.recent_clock_sync state.last_drift_warning;
  environments = environments;
})

-- `_multi_env_status`
unfoldable pub multi_env_status : AppSettings → BatchRunState → Result StatusPage
unfolding env_statuses ntp_status
multi_env_status settings state =
    page_of settings state (env_statuses state settings.environments [])

-- The answer 503, 404 or 200, or that an exception leaves the route, which makes a 500.
pub data Answer (A : Type 0) : Type 0 where
  unavailable broken : Answer A
  not_found : Text → Answer A
  done : A → Answer A

abbrev done_if : {A : Type 0} → Result A → Answer A
done_if (ok a) = done a
done_if (raised exc) = broken

-- `GET /status`
unfoldable pub status : Dashboard → Answer StatusPage
unfolding multi_env_status
status d = elim d.settings [
  | none ↦ unavailable
  | some settings ↦ elim d.run_state [
    | none ↦ unavailable
    | some state ↦ done_if (multi_env_status settings state)
  ]
]

-- The answer of `POST /run`, and the runs that were started for it, in threads of their own.
pub record Started : Type 0 where
  pub machine : Text
  pub triggered : List Text
  pub runners : List Runner
  pub run_ids : Dict Text Text

abbrev cons_run : Option Runner → Option (List Runner) → Option (List Runner)
cons_run none rest = none
cons_run (some r) none = none
cons_run (some r) (some rs) = some (r ∷ rs)

-- The run of a thread, where it returns.
abbrev pub await : (Runner → Bool) → Option Runner → Option Runner
await returns none = none
await returns (some r) = if returns r then some r else none

-- `asyncio.gather` of the targets, where `returns` tells whether `run_once` returns: an exception
-- of one, be it `StopIteration` for a name that is not found, leaves it.
unfoldable pub gather : (Runner → Bool) → AppSettings → List Text → Option (List Runner)
unfolding run_env_once
gather returns s [] = some []
gather returns s (name ∷ names) =
    cons_run (await returns (run_env_once s name)) (gather returns s names)

-- `uuid4` makes the number of a run.
module _ (run_id : Text → Text) where
  -- `dict(zip(targets, run_ids))`
  run_ids_of : List Text → Dict Text Text → Dict Text Text
  run_ids_of [] d = d
  run_ids_of (name ∷ names) d = run_ids_of names (Dict.insert name (run_id name) d)

module _ (run_id : Text → Text) (returns : Runner → Bool) where
  abbrev started : AppSettings → List Text → Option (List Runner) → Answer Started
  started s targets none = broken
  started s targets (some runners) = done (record {
    machine = s.machine.name;
    triggered = targets;
    runners = runners;
    run_ids = run_ids_of run_id targets [];
  })

  -- `POST /run?environment=<name>`, and without the parameter.
  unfoldable pub manual_run : Dashboard → Option Text → Answer Started
  unfolding gather run_ids_of
  manual_run d environment = elim d.settings [
    | none ↦ unavailable
    | some s ↦ elim d.run_state [
      | none ↦ unavailable
      | some state ↦ elim environment [
        | none ↦
            let targets = map (λ e. e.name) (enabled_environments s) in
            started s targets (gather returns s targets)
        | some name ↦
            if contains (map (λ e. e.name) s.environments) name
            then started s (name ∷ []) (gather returns s (name ∷ []))
            else not_found name
      ]
    ]
  ]
