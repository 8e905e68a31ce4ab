-- ===== src/Scheduler.antt =====
-- scanner/scheduler.py: the jobs of the environments.
pub mod Stagger
pub mod Register
pub mod Registered
use pms_scanner.Prelude.{ℕ, Bool, true, List, ◌∷◌, ◌++◌, map, Text, codes, keep_if}
use pms_scanner.Config.{Environment}
use pms_scanner.Config.Assembly.{AppSettings}

-- `JobSpec`, with `trigger_kwargs` as `second` and `minute`.
pub record JobSpec : Type 0 where
  pub job_id : Text
  pub env_name : Text
  pub second : ℕ
  pub minute : Text
  pub max_instances : ℕ
  pub coalesce : Bool
  pub misfire_grace_time : ℕ

-- `AppSettings.enabled_environments`
abbrev pub enabled_environments : AppSettings → List Environment
enabled_environments s = keep_if (λ e. e.enabled) s.environments

abbrev pub job_of : Text → Environment → JobSpec
job_of machine env = record {
  job_id = machine ++ b':' ∷ env.name;
  env_name = env.name;
  second = env.schedule_offset_seconds;
  minute = codes "*";
  max_instances = 1;
  coalesce = true;
  misfire_grace_time = 30;
}

unfoldable pub build_jobs : AppSettings → List JobSpec
build_jobs s = map (job_of s.machine.name) (enabled_environments s)
