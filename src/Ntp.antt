-- ===== src/Ntp.antt =====
-- scanner/ntp.py: measurements and their classification. Times and offsets are in microseconds.
pub mod Gate
pub mod Drift
pub mod Monitor
use pms_scanner.Prelude.{
  ℕ, ◌*◌, Bool, true, false, ◌||◌, Option, none, some, Text, ltb, leb, if◌then◌else◌,
}
use pms_scanner.Prelude.Int.{ℤ, abs}

abbrev pub max_plausible_offset : ℕ
max_plausible_offset = 86400 * 1000000

abbrev pub kiss_of_death_stratum : ℕ
kiss_of_death_stratum = 16

pub data NtpOutcome : Type 0 where
  ok rejected_kod : NtpOutcome

pub data ClockSyncOutcome : Type 0 where
  ok drift_corrected drift_uncorrected unreachable rejected_kod : ClockSyncOutcome

-- `_WARNING_OUTCOMES`
abbrev pub is_warning : ClockSyncOutcome → Bool
is_warning ok = false
is_warning drift_corrected = false
is_warning _ = true

pub record NtpMeasurement : Type 0 where
  pub source : Text
  pub offset_seconds : ℤ
  pub measured_at : ℕ
  pub outcome : NtpOutcome
  pub stratum : ℕ

-- What the requester returns; the stratum may be missing.
pub record Stats : Type 0 where
  pub offset : ℤ
  pub stratum : Option ℕ

-- `NTPClient.measure` at the clock `now`. The requester's answer is `none` where it raised one of
-- the network errors; the result is `none` where `measure` raises `NTPUnreachableError`.
unfoldable pub measure : Text → Option Stats → ℕ → Option NtpMeasurement
measure source none now = none
measure source (some stats) now =
    let stratum : ℕ = elim stats.stratum [ none ↦ 0 | some s ↦ s ] in
    some (record {
      source = source;
      offset_seconds = stats.offset;
      measured_at = now;
      outcome =
          if leb kiss_of_death_stratum stratum || ltb max_plausible_offset (abs stats.offset)
          then NtpOutcome.rejected_kod
          else NtpOutcome.ok;
      stratum = stratum;
    })

pub record ClockSyncEvent : Type 0 where
  pub measured_at : ℕ
  pub source : Text
  pub offset_seconds : ℤ
  pub outcome : ClockSyncOutcome
  pub correction_exit_code : Option ℤ
