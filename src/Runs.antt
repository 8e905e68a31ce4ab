-- ===== src/Runs.antt =====
-- The runs that scanner/scheduler.py and scanner/dashboard.py start: `_default_run_env` and
-- `_run_env_once`.
pub mod Same
use pms_scanner.Prelude.{
  ℕ, Bool, true, Option, none, some, List, [], ◌∷◌, Text, text_eq, ◌==◌, if◌then◌else◌, Exec, ok,
  ◌>>=◌, ◌>>◌,
}
use mathlib.Core.Option
use pms_scanner.Machine.{MachineIdentity}
use pms_scanner.Config.{Environment}
use pms_scanner.Config.Assembly.{AppSettings}
use pms_scanner.Batch.World.{Outside, Runner, World, on_tree}
use pms_scanner.Batch.Run.{ensure_dirs, run_once}

-- `next(e for e in environments if e.name == env_name)`: `none` is `StopIteration`.
unfoldable pub find_env : Text → List Environment → Option Environment
find_env name [] = none
find_env name (e ∷ es) = let rest = find_env name es in if e.name == name then some e else rest

-- The `BatchRunner` of a scheduled run.
abbrev pub scheduled_runner : AppSettings → Environment → Runner
scheduled_runner s env = record {
  env = env;
  machine = s.machine;
  settle = s.options.file_settle_seconds;
  limits = s.options.limits;
  emit = true;
  notifier = some s.options.notify;
}

-- The `BatchRunner` of a run by hand.
abbrev pub manual_runner : AppSettings → Environment → Runner
manual_runner s env = record {
  env = env;
  machine = s.machine;
  settle = s.options.file_settle_seconds;
  limits = s.options.limits;
  emit = true;
  notifier = some s.options.notify;
}

-- The runner that `_default_run_env` makes.
unfoldable pub default_run_env : AppSettings → Text → Option Runner
unfolding find_env
default_run_env s env_name = Option.map (scheduled_runner s) (find_env env_name s.environments)

-- `_dispatch`, where `run_env` is `_default_run_env`.
abbrev pub dispatch : AppSettings → Text → Option Runner
dispatch s env_name = default_run_env s env_name

-- The runner that `_run_env_once` makes.
unfoldable pub run_env_once : AppSettings → Text → Option Runner
unfolding find_env
run_env_once s env_name = Option.map (manual_runner s) (find_env env_name s.environments)
