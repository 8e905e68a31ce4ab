-- ===== src/Tests/Settings.antt =====
-- Settings of two environments, and the theorems about settings.
use pms_scanner.Prelude.{
  ℕ, ◌≤◌, ◌≡◌, ◌↔◌, refl, true, none, some, [], ◌∷◌, All, Text, codes, text_eq, nat_eq, keep_if,
  length,
}
use pms_scanner.Prelude.Int.{pos}
use pms_scanner.Machine.{identify}
use pms_scanner.Config.{Environment}
use pms_scanner.Config.Options.{Options}
use pms_scanner.Config.Assembly.{RawSettings, EnvBlock, AppSettings, assemble, valid}
use pms_scanner.Config.Assembly.Accepts.{IsAccepted, assemble_accepts}
use pms_scanner.Notify.{NotifySettings}
use pms_scanner.Scheduler.{build_jobs}
use pms_scanner.Scheduler.Stagger.{due, jobs_are_staggered}

abbrev pub mail_settings : NotifySettings
mail_settings = record {
  smtp_host = some (codes "mail");
  smtp_port = 587;
  smtp_username = some (codes "user");
  smtp_password = some (codes "secret");
  use_tls = true;
  from_addr = some (codes "scanner");
  support_addr = codes "support";
  timeout_seconds = 10;
}

abbrev pub options : Options
options = record {
  ntp = record {
    source = codes "pool.ntp.org";
    check_interval_seconds = 3600;
    max_drift_seconds = 1000000;
    correct_clock_command = some (codes "/fix");
    startup_required = true;
    startup_timeout_seconds = 30;
  };
  notify = mail_settings;
  file_settle_seconds = 10000;
  limits = record { timeout_seconds = 30; max_retries = 3; retry_max_wait_seconds = 10 };
}

abbrev pub block : Text → ℕ → EnvBlock
block folder offset = record {
  enabled = true;
  watch_dir = some folder;
  backend_base_url = none;
  api_token = some (codes "key");
  requisition_id = none;
  schedule_offset_seconds = some (pos offset);
}

abbrev pub raw_settings : RawSettings
raw_settings = record {
  machine_identity = codes "mac-mini";
  environments_raw = codes "Production, staging";
  env_production = some (block (codes "/p") 0);
  env_staging = some (block (codes "/s") 30);
  options = options;
}

abbrev pub same_path : Text → Text
same_path p = p

abbrev pub env : Text → Text → Text → ℕ → Environment
env name url folder offset = record {
  name = name;
  enabled = true;
  watch_dir = folder;
  backend_base_url = url;
  api_token = codes "key";
  requisition_id = none;
  schedule_offset_seconds = offset;
}

abbrev pub settings : AppSettings
settings = record {
  machine = record { name = codes "mac-mini" };
  environments =
      env (codes "production") (codes "https://adg.mpsinc.io") (codes "/p") 0
      ∷ env (codes "staging") (codes "https://dev.adg.mpsinc.io") (codes "/s") 30
      ∷ [];
  options = options;
}

pub assembled : assemble same_path raw_settings ≡ valid settings
unfolding assemble identify text_eq nat_eq keep_if
assembled = refl

assemble_accepts_example :
    (assemble same_path raw_settings ≡ valid settings) ↔ IsAccepted same_path raw_settings settings
assemble_accepts_example = assemble_accepts same_path raw_settings settings

jobs_are_staggered_example :
    All (λ j. j.second ≤ 59) (build_jobs settings)
    × ((second : ℕ) → length (due second (build_jobs settings)) ≤ 1)
jobs_are_staggered_example = jobs_are_staggered same_path raw_settings settings assembled
