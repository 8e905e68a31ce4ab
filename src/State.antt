-- ===== src/State.antt =====
-- scanner/state.py: the per-(machine, environment) run state. Each method is one step under the
-- lock.
pub mod Laws
pub mod Fresh
pub mod After
use pms_scanner.Prelude.{
  ℕ, ◌+◌, Option, none, some, List, [], ◌∷◌, ◌++◌, map, Text, text_eq, if◌then◌else◌, Exec, ok,
  raised, key_error, Bool, true, false,
}
use pms_scanner.Prelude.Dict
use pms_scanner.Prelude.Dict.{Dict}
use pms_scanner.Machine.{MachineIdentity}
use pms_scanner.Ntp.{ClockSyncEvent, ClockSyncOutcome, drift_uncorrected, unreachable, rejected_kod}

pub record ErrorRecord : Type 0 where
  pub filename : Text
  pub message : Text
  pub page_num : Option ℕ
  pub at : ℕ

pub record PerEnvRunState : Type 0 where
  pub machine : Text
  pub environment : Text
  pub current_file : Option Text
  pub current_page : ℕ
  pub total_pages : ℕ
  pub files_processed : ℕ
  pub pages_uploaded : ℕ
  pub errors : List ErrorRecord
  pub last_run_started_at : Option ℕ
  pub last_run_finished_at : Option ℕ

pub record BatchRunState : Type 0 where
  pub machine : MachineIdentity
  pub per_env : Dict Text PerEnvRunState
  pub recent_clock_sync : Option ClockSyncEvent
  pub last_drift_warning : Option ClockSyncEvent

abbrev pub fresh : Text → Text → PerEnvRunState
fresh machine name = record {
  machine = machine;
  environment = name;
  current_file = none;
  current_page = 0;
  total_pages = 0;
  files_processed = 0;
  pages_uploaded = 0;
  errors = [];
  last_run_started_at = none;
  last_run_finished_at = none;
}

unfoldable pub fresh_all :
    MachineIdentity → List Text → Dict Text PerEnvRunState → Dict Text PerEnvRunState
fresh_all machine [] d = d
fresh_all machine (name ∷ names) d =
    fresh_all machine names (Dict.insert name (fresh machine.name name) d)

-- `BatchRunState(machine, env_names)`
unfoldable pub new_state : MachineIdentity → List Text → BatchRunState
unfolding fresh_all
new_state machine env_names = record {
  machine = machine;
  per_env = fresh_all machine env_names [];
  recent_clock_sync = none;
  last_drift_warning = none;
}

-- `self.per_env[name]`, changed in place: a `KeyError` where the environment is not configured.
unfoldable pub change : Text → (PerEnvRunState → PerEnvRunState) → Exec BatchRunState (Unit {0})
change name f s = elim (Dict.lookup name s.per_env) [
  | none ↦ (raised key_error, s)
  | some st ↦ (ok tt, record s { per_env = Dict.insert name (f st) s.per_env })
]

abbrev pub bump_pages : ℕ → PerEnvRunState → PerEnvRunState
bump_pages n st = record st { pages_uploaded = st.pages_uploaded + n }

abbrev pub bump_files : ℕ → PerEnvRunState → PerEnvRunState
bump_files n st = record st { files_processed = st.files_processed + n }

abbrev pub log_error : ErrorRecord → PerEnvRunState → PerEnvRunState
log_error r st = record st { errors = st.errors ++ r ∷ [] }

-- An argument that is `None` leaves its field alone.
abbrev pub or_keep {ℓ} : {A : Type ℓ} → Option A → A → A
or_keep none old = old
or_keep (some new) old = new

abbrev pub or_keep_some {ℓ} : {A : Type ℓ} → Option A → Option A → Option A
or_keep_some none old = old
or_keep_some (some new) old = some new

abbrev pub show_current : Option Text → Option ℕ → Option ℕ → PerEnvRunState → PerEnvRunState
show_current file page total st = record st {
  current_file = or_keep_some file st.current_file;
  current_page = or_keep page st.current_page;
  total_pages = or_keep total st.total_pages;
}

unfoldable pub add_pages_uploaded : Text → ℕ → Exec BatchRunState (Unit {0})
add_pages_uploaded name n = change name (bump_pages n)

unfoldable pub add_files_processed : Text → ℕ → Exec BatchRunState (Unit {0})
add_files_processed name n = change name (bump_files n)

unfoldable pub add_error : Text → ErrorRecord → Exec BatchRunState (Unit {0})
add_error name r = change name (log_error r)

unfoldable pub set_current :
    Text → Option Text → Option ℕ → Option ℕ → Exec BatchRunState (Unit {0})
set_current name file page total = change name (show_current file page total)

unfoldable pub mark_run_started : Text → ℕ → Exec BatchRunState (Unit {0})
mark_run_started name when = change name (λ st. record st { last_run_started_at = some when })

unfoldable pub mark_run_finished : Text → ℕ → Exec BatchRunState (Unit {0})
mark_run_finished name when = change name (λ st. record st { last_run_finished_at = some when })

abbrev pub zeroed : PerEnvRunState → PerEnvRunState
zeroed st = record st { files_processed = 0; pages_uploaded = 0; errors = [] }

unfoldable pub reset_daily : BatchRunState → BatchRunState
reset_daily s = record s { per_env = map (λ e. (e.0, zeroed e.1)) s.per_env }

-- `_DRIFT_WARNING_OUTCOMES`
abbrev pub is_drift_warning : ClockSyncOutcome → Bool
is_drift_warning drift_uncorrected = true
is_drift_warning unreachable = true
is_drift_warning rejected_kod = true
is_drift_warning _ = false

unfoldable pub record_clock_sync : ClockSyncEvent → BatchRunState → BatchRunState
record_clock_sync event s = record s {
  recent_clock_sync = some event;
  last_drift_warning = if is_drift_warning event.outcome then some event else s.last_drift_warning;
}
