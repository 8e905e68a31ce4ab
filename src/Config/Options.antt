-- ===== src/Config/Options.antt =====
-- scanner/config.py: the settings that stand beside the environments.
use pms_scanner.Prelude.{ℕ, Bool, Option, none, some, Text, if◌then◌else◌}
use pms_scanner.Machine.{is_empty, strip}
use pms_scanner.Uploader.{Limits}
use pms_scanner.Notify.{NotifySettings}

-- `NTPSettings`, in seconds but for `max_drift_seconds`, which is in microseconds.
pub record NtpSettings : Type 0 where
  pub source : Text
  pub check_interval_seconds : ℕ
  pub max_drift_seconds : ℕ
  pub correct_clock_command : Option Text
  pub startup_required : Bool
  pub startup_timeout_seconds : ℕ

-- The other fields of `AppSettings`; the settling time is in milliseconds. The port of the
-- dashboard and the level of the log are left out.
pub record Options : Type 0 where
  pub ntp : NtpSettings
  pub notify : NotifySettings
  pub file_settle_seconds : ℕ
  pub limits : Limits

-- `_blank_is_none` and `_blank_command_is_none`
unfoldable pub blank_is_none : Option Text → Option Text
unfolding strip
blank_is_none none = none
blank_is_none (some s) = if is_empty (strip s) then none else some s

abbrev pub clean_ntp : NtpSettings → NtpSettings
clean_ntp s = record s { correct_clock_command = blank_is_none s.correct_clock_command }

abbrev pub clean_notify : NotifySettings → NotifySettings
clean_notify s = record s {
  smtp_host = blank_is_none s.smtp_host;
  smtp_username = blank_is_none s.smtp_username;
  from_addr = blank_is_none s.from_addr;
}

abbrev pub clean_options : Options → Options
clean_options o = record o { ntp = clean_ntp o.ntp; notify = clean_notify o.notify }
