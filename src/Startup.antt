-- ===== src/Startup.antt =====
-- scanner/__main__.py: the start of the program.
pub mod Folders
pub mod Order
use pms_scanner.Prelude.{
  ℕ, ◌*◌, Bool, true, false, Option, none, some, List, [], ◌∷◌, map, Text, codes, text_eq, ◌==◌,
  if◌then◌else◌, Exec, Result, ok, raised, Fault, pure, ◌>>=◌, ◌>>◌,
}
use pms_scanner.Prelude.Int.{ℤ}
use pms_scanner.Config.{Environment}
use pms_scanner.Config.Assembly.{
  RawSettings, AppSettings, ConfigError, valid, refused, load_settings,
}
use pms_scanner.Ntp.{
  NtpMeasurement, ClockSyncEvent, ClockSyncOutcome, drift_uncorrected, unreachable, rejected_kod,
}
use pms_scanner.Ntp.Gate.{Verdict, passed, drift_exceeded, no_response, verify}
use pms_scanner.Ntp.Drift.{measured}
use pms_scanner.Ntp.Monitor
use pms_scanner.Ntp.Monitor.{DriftMonitor, new_monitor}
use pms_scanner.State.{BatchRunState, new_state, record_clock_sync}
use pms_scanner.Tree.{Tree, watch, processed, in_progress, mkdir}
use pms_scanner.Batch.World.{Outside, Runner}
use pms_scanner.Batch.Run.{ensure_dirs, recover_stranded}
use pms_scanner.Scheduler.{enabled_environments}
use pms_scanner.Scheduler.Register
use pms_scanner.Scheduler.Register.{Scheduler, new_scheduler, register}
use pms_scanner.Dashboard.Events.{AppState}
use pms_scanner.Dashboard.{Dashboard, unconfigured, configure}

-- The trees of the environments, by the resolved watch folder.
abbrev pub Disk : Type 0
Disk = Text → Tree

abbrev pub put : Text → Tree → Disk → Disk
put place t d p = if place == p then t else d p

-- What startup leaves undone: an exit with code 1.
pub data Refusal : Type 0 where
  bad_settings : ConfigError → Refusal
  clock_drift : NtpMeasurement → Refusal
  no_time_source : Refusal

-- A part of the start that may end the program; `hung` is a gate that never ends.
pub data Boot (A : Type 0) : Type 0 where
  booted : A → Boot A
  exits : Refusal → Boot A
  hung : Boot A

-- `Runtime`
pub record Runtime : Type 0 where
  pub settings : AppSettings
  pub state : BatchRunState
  pub drift_monitor : DriftMonitor

-- What `configure_services` and `main` put together; `main` sets the loop of the event bus first.
pub record Process : Type 0 where
  pub runtime : Runtime
  pub dashboard : Dashboard
  pub scheduler : Scheduler
  pub app_state : AppState Text

-- The event that `_on_clock` puts on the stream.
pub record ClockEvent : Type 0 where
  pub type : Text
  pub machine : Text
  pub clock : ClockSyncEvent

-- `_warn`
abbrev warns_on : ClockSyncOutcome → Bool
warns_on drift_uncorrected = true
warns_on unreachable = true
warns_on rejected_kod = true
warns_on _ = false

unfoldable pub on_clock : Text → ClockSyncEvent → ClockEvent
on_clock machine ev = record {
  type = if warns_on ev.outcome then codes "clock_drift_warning" else codes "clock_sync";
  machine = machine;
  clock = ev;
}

-- The folders that `_create_dirs` makes for one environment.
unfoldable pub created : Text → Tree → Tree
created machine t = mkdir processed (mkdir (in_progress machine) (mkdir watch t))

abbrev pub judged : Option Verdict → Boot (Option NtpMeasurement)
judged none = hung
judged (some (passed m)) = booted (some m)
judged (some (drift_exceeded m)) = exits (clock_drift m)
judged (some no_response) = exits no_time_source

abbrev pub synced : Option NtpMeasurement → BatchRunState → BatchRunState
synced none state = state
synced (some m) state = record_clock_sync (measured m ClockSyncOutcome.ok none) state

-- The `BatchRunner` that `configure_services` makes, with the defaults of its constructor.
abbrev pub startup_runner : AppSettings → Environment → Runner
startup_runner s env = record {
  env = env;
  machine = s.machine;
  settle = 10000;
  limits = record { timeout_seconds = 30; max_retries = 3; retry_max_wait_seconds = 10 };
  emit = false;
  notifier = none;
}

abbrev pub runtime_of : AppSettings → Option NtpMeasurement → Runtime
runtime_of s m = record {
  settings = s;
  state = synced m (new_state s.machine (map (λ e. e.name) s.environments));
  drift_monitor =
      new_monitor s.options.ntp.source s.options.ntp.max_drift_seconds
        s.options.ntp.check_interval_seconds s.options.ntp.correct_clock_command;
}

abbrev pub process_of : Runtime → Process
process_of rt = record {
  runtime = rt;
  dashboard = configure rt.settings rt.state unconfigured;
  scheduler = register false none (new_scheduler rt.settings true);
  app_state = record { has_loop = true; event_queue = [] };
}

-- `scheduler.start()` and `drift_monitor.start()`
abbrev pub running : Process → Process
running p = record p {
  scheduler = Register.start p.scheduler;
  runtime = record p.runtime { drift_monitor = Monitor.start p.runtime.drift_monitor };
}

-- How `main` ends, or that it serves the dashboard.
pub data Ending : Type 0 where
  serving : Process → Ending
  exited : Refusal → Ending
  crashed : Fault → Ending
  waits_forever : Ending

abbrev pub served : Result Process → Ending
served (ok p) = serving (running p)
served (raised exc) = crashed exc

-- The answers of the time source and the readings of the monotonic clock, in milliseconds, are as
-- in `NTPGate.verify`.
module _ (measures : ℕ → Option NtpMeasurement) (monotonic : ℕ → ℕ) where
  -- The startup gate, where it is required.
  unfoldable pub gate : AppSettings → Boot (Option NtpMeasurement)
  unfolding verify
  gate s =
      if s.options.ntp.startup_required
      then judged (
          verify measures monotonic s.options.ntp.max_drift_seconds
            (s.options.ntp.startup_timeout_seconds * 1000))
      else booted none

-- `resolve` is `Path.resolve`.
module _ (resolve : Text → Text) where
  abbrev pub place : Environment → Text
  place env = resolve env.watch_dir

  -- `_create_dirs`, of the enabled environments.
  unfoldable pub create_dirs : Text → List Environment → Disk → Disk
  unfolding created
  create_dirs machine [] d = d
  create_dirs machine (env ∷ envs) d =
      create_dirs machine envs (put (place env) (created machine (d (place env))) d)

  abbrev pub built : AppSettings → Disk → Boot (Option NtpMeasurement) → Boot Runtime × Disk
  built s d (booted m) =
      (booted (runtime_of s m), create_dirs s.machine.name (enabled_environments s) d)
  built s d (exits why) = (exits why, d)
  built s d hung = (hung, d)

  -- `build_runtime`
  unfoldable pub build_runtime :
      (ℕ → Option NtpMeasurement) → (ℕ → ℕ) → AppSettings → Disk → Boot Runtime × Disk
  unfolding gate create_dirs
  build_runtime measures monotonic s d = built s d (gate measures monotonic s)

-- What lies outside may differ between the environments; `clock` stamps the recovered files.
module _ (resolve : Text → Text) (outside : Environment → Outside) (clock : ℕ) where
  -- `BatchRunner(...).recover_stranded()` on the environment's tree.
  unfoldable pub recover_env : AppSettings → Environment → Exec Disk (List Text)
  unfolding ensure_dirs recover_stranded
  recover_env s env d =
      let (recovered, t) =
        recover_stranded (outside env) (startup_runner s env) clock
          (ensure_dirs s.machine.name (d (place resolve env))) in
      (recovered, put (place resolve env) t d)

  unfoldable pub recover_envs : AppSettings → List Environment → Exec Disk (Unit {0})
  unfolding recover_env
  recover_envs s [] = pure tt
  recover_envs s (env ∷ envs) = recover_env s env >>= λ recovered. recover_envs s envs

  -- `configure_services`
  unfoldable pub configure_services : Runtime → Exec Disk Process
  unfolding recover_envs
  configure_services rt =
      recover_envs rt.settings (enabled_environments rt.settings) >>= λ _. pure (process_of rt)

  abbrev pub after_boot : Boot Runtime × Disk → Ending × Disk
  after_boot (booted rt, d) = let (p, d') = configure_services rt d in (served p, d')
  after_boot (exits why, d) = (exited why, d)
  after_boot (hung, d) = (waits_forever, d)

  -- `main`, up to `server.serve()`.
  unfoldable pub main : (ℕ → Option NtpMeasurement) → (ℕ → ℕ) → RawSettings → Disk → Ending × Disk
  unfolding load_settings build_runtime configure_services
  main measures monotonic raw d = elim (load_settings resolve raw) [
    | refused e ↦ (exited (bad_settings e), d)
    | valid s ↦ after_boot (build_runtime resolve measures monotonic s d)
  ]

-- `_shutdown`
abbrev pub shutdown : Process → Process
shutdown p = record p {
  scheduler = Register.stop p.scheduler;
  runtime = record p.runtime { drift_monitor = Monitor.stop p.runtime.drift_monitor };
}
