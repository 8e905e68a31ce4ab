-- ===== src/Ntp/Drift.antt =====
-- scanner/ntp.py: `DriftMonitor.check_once` and `_record`.
use pms_scanner.Prelude.{
  ℕ, Bool, true, false, Option, none, some, List, [], ◌∷◌, Text, leb, ltb, not, ◌&&◌, ◌||◌, ◌≡◌,
  refl, inl, inr, Bool-cases, leb→le, leb→gt, lt→ltb, ge→ltb, if◌then◌else◌,
}
use pms_scanner.Prelude.Int.{ℤ, pos, abs}
use pms_scanner.Machine.{is_empty}
use pms_scanner.Ntp.{NtpMeasurement, NtpOutcome, ClockSyncEvent, ClockSyncOutcome, is_warning}

-- `_DriftSink`, with the events that `on_event` was given, the newest first.
pub record Sink : Type 0 where
  pub recent_clock_sync : Option ClockSyncEvent
  pub last_drift_warning : Option ClockSyncEvent
  pub emitted : List ClockSyncEvent

-- `_record`, where a sink and a callback are set.
unfoldable pub record_event : ClockSyncEvent → Sink → Sink
record_event event s = record {
  recent_clock_sync = some event;
  last_drift_warning = if is_warning event.outcome then some event else s.last_drift_warning;
  emitted = event ∷ s.emitted;
}

-- `_record`, unless an exception has left `check_once` before.
abbrev pub record_if : Option ClockSyncEvent → Sink → Sink
record_if none s = s
record_if (some event) s = record_event event s

-- How a call of the helper ends: with an exit code, with `FileNotFoundError`, or with another
-- exception, such as `PermissionError`.
pub data HelperRun : Type 0 where
  exited : ℤ → HelperRun
  missing fails : HelperRun

-- What a check gives: its event, which is `none` where an exception leaves it, and the call of the
-- helper, if it made one.
pub record Checked : Type 0 where
  pub event : Option ClockSyncEvent
  pub helper_call : Option (Text × Text)

abbrev pub measured : NtpMeasurement → ClockSyncOutcome → Option ℤ → ClockSyncEvent
measured m outcome code = record {
  measured_at = m.measured_at;
  source = m.source;
  offset_seconds = m.offset_seconds;
  outcome = outcome;
  correction_exit_code = code;
}

-- By the end of the helper's call.
abbrev pub after_helper : NtpMeasurement → HelperRun → Option ClockSyncEvent
after_helper m missing = some (measured m ClockSyncOutcome.drift_uncorrected none)
after_helper m fails = none
after_helper m (exited (pos ℕ.zero)) =
    some (measured m ClockSyncOutcome.drift_corrected (some (pos 0)))
after_helper m (exited code) = some (measured m ClockSyncOutcome.drift_uncorrected (some code))

-- The helper runs as `runner command source`.
module _ (runner : Text → Text → HelperRun) (max_drift : ℕ) (source : Text) where
  abbrev pub correct : NtpMeasurement → Option Text → Checked
  correct m none = record {
    event = some (measured m ClockSyncOutcome.drift_uncorrected none);
    helper_call = none;
  }
  correct m (some command) =
      if is_empty command
      then record {
        event = some (measured m ClockSyncOutcome.drift_uncorrected none);
        helper_call = none;
      }
      else record {
        event = after_helper m (runner command source);
        helper_call = some (command, source);
      }

  abbrev pub check_measured : NtpMeasurement → NtpOutcome → Option Text → Checked
  check_measured m NtpOutcome.rejected_kod command = record {
    event = some (measured m ClockSyncOutcome.rejected_kod none);
    helper_call = none;
  }
  check_measured m NtpOutcome.ok command =
      if leb (abs m.offset_seconds) max_drift
      then record { event = some (measured m ClockSyncOutcome.ok none); helper_call = none }
      else correct m command

  -- `check_once`, up to `_record`, at the wall clock `now`. The measurement is `none` where
  -- `measure` raises `NTPUnreachableError`.
  unfoldable pub check : ℕ → Option NtpMeasurement → Option Text → Checked
  check now none command = record {
    event = some (record {
      measured_at = now;
      source = source;
      offset_seconds = pos 0;
      outcome = ClockSyncOutcome.unreachable;
      correction_exit_code = none;
    });
    helper_call = none;
  }
  check now (some m) command = check_measured m m.outcome command

  -- `check_once`, with what `_record` makes of the sink.
  unfoldable pub check_once : ℕ → Option NtpMeasurement → Option Text → Sink → Checked × Sink
  check_once now m command s =
      let checked = check now m command in (checked, record_if checked.event s)

  -- The drift that `check_once` sees, if it gets that far.
  abbrev pub drifts : NtpOutcome → ℤ → Bool
  drifts NtpOutcome.ok offset = ltb max_drift (abs offset)
  drifts NtpOutcome.rejected_kod offset = false

  abbrev pub drifted : Option NtpMeasurement → Bool
  drifted none = false
  drifted (some m) = drifts m.outcome m.offset_seconds

  abbrev pub exited_0 : HelperRun → Bool
  exited_0 (exited (pos ℕ.zero)) = true
  exited_0 _ = false

  abbrev pub has_failed : HelperRun → Bool
  has_failed fails = true
  has_failed _ = false

  abbrev pub helped : Option (Text × Text) → Bool
  helped none = false
  helped (some (command, src)) = exited_0 (runner command src)

  abbrev pub escapes : Option (Text × Text) → Bool
  escapes none = false
  escapes (some (command, src)) = has_failed (runner command src)

  -- The exit code that the call gave, if it gave one.
  abbrev pub code_of : HelperRun → Option ℤ
  code_of (exited code) = some code
  code_of _ = none

  abbrev pub given_code : Option (Text × Text) → Option ℤ
  given_code none = none
  given_code (some (command, src)) = code_of (runner command src)

  abbrev pub recorded_code : Option ClockSyncEvent → Option ℤ
  recorded_code none = none
  recorded_code (some event) = event.correction_exit_code

  -- The call that corrects the clock, where a command is configured.
  abbrev pub correction : Option Text → Option (Text × Text)
  correction none = none
  correction (some []) = none
  correction (some (c ∷ command)) = some (c ∷ command, source)

  abbrev pub is_corrected : ClockSyncOutcome → Bool
  is_corrected ClockSyncOutcome.drift_corrected = true
  is_corrected _ = false

  abbrev pub is_in_sync : ClockSyncOutcome → Bool
  is_in_sync ClockSyncOutcome.ok = true
  is_in_sync _ = false

  -- An event was recorded, and its outcome passes the test.
  abbrev pub records : (ClockSyncOutcome → Bool) → Option ClockSyncEvent → Bool
  records p none = false
  records p (some event) = p event.outcome

  abbrev pub Table : Bool → Bool → Option Text → Checked → Type 0
  Table usable drift command checked =
      (checked.helper_call ≡ (if drift then correction command else none))
      × (records is_corrected checked.event ≡ helped checked.helper_call)
      × (records is_in_sync checked.event ≡ (usable && not drift))
      × (records is_warning checked.event
          ≡ not (
              (records is_in_sync checked.event || records is_corrected checked.event)
              || escapes checked.helper_call))
      × (records (λ _. true) checked.event ≡ not (escapes checked.helper_call))
      × (recorded_code checked.event ≡ given_code checked.helper_call)

  abbrev pub is_usable : Option NtpMeasurement → Bool
  is_usable none = false
  is_usable (some m) = elim m.outcome [ NtpOutcome.ok ↦ true | NtpOutcome.rejected_kod ↦ false ]

  after_helper-outcome :
      (m : NtpMeasurement) (run : HelperRun)
      → let event = after_helper m run in
        (records is_corrected event ≡ exited_0 run)
        × (records is_in_sync event ≡ false)
        × (records is_warning event ≡ not (records is_corrected event || has_failed run))
        × (records (λ _. true) event ≡ not (has_failed run))
        × (recorded_code event ≡ code_of run)
  after_helper-outcome m missing = (refl, refl, refl, refl, refl)
  after_helper-outcome m fails = (refl, refl, refl, refl, refl)
  after_helper-outcome m (exited (pos ℕ.zero)) = (refl, refl, refl, refl, refl)
  after_helper-outcome m (exited code) = (refl, refl, refl, refl, refl)

  correct-Table :
      (m : NtpMeasurement) (command : Option Text) → Table true true command (correct m command)
  correct-Table m none = (refl, refl, refl, refl, refl, refl)
  correct-Table m (some []) = (refl, refl, refl, refl, refl, refl)
  correct-Table m (some (c ∷ command)) =
      let (fixed, out, warn, told, code) = after_helper-outcome m (runner (c ∷ command) source) in
      (refl, fixed, out, rw out warn, told, code)

  -- `check_once` calls the helper, with the configured command and the source, exactly when a
  -- usable measurement drifts beyond the limit and a command is configured. It records an event unless the helper's call raises an exception other
  -- than `FileNotFoundError`, which leaves `check_once`. The outcome of the event is
  -- "drift_corrected" exactly when such a call gave exit code 0, it is "ok" exactly for a usable
  -- measurement within the limit, and it is a warning otherwise. The event has the exit code of
  -- the call, where it gave one.
  pub check-Table :
      (now : ℕ) (m : Option NtpMeasurement) (command : Option Text)
      → Table (is_usable m) (drifted m) command (check now m command)
  unfolding check
  check-Table now none command = (refl, refl, refl, refl, refl, refl)
  check-Table now (some m) command = by_outcome m.outcome
    where
      by_outcome :
          (outcome : NtpOutcome)
          → Table
              (elim outcome [ NtpOutcome.ok ↦ true | NtpOutcome.rejected_kod ↦ false ])
              (drifts outcome m.offset_seconds)
              command
              (check_measured m outcome command)
      by_outcome NtpOutcome.rejected_kod = (refl, refl, refl, refl, refl, refl)
      by_outcome NtpOutcome.ok = elim (Bool-cases (leb (abs m.offset_seconds) max_drift)) [
        | inl within ↦
            rw (within, ge→ltb max_drift (abs m.offset_seconds) (leb→le _ _ within))
              (refl, refl, refl, refl, refl, refl)
        | inr beyond ↦
            rw (beyond, lt→ltb max_drift (abs m.offset_seconds) (leb→gt _ _ beyond))
              (correct-Table m command)
      ]
