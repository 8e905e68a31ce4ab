-- ===== src/Ntp/Monitor.antt =====
-- scanner/ntp.py: the thread of the `DriftMonitor`: `start`, `stop` and `_loop`.
pub mod Shown
use pms_scanner.Prelude.{
  ℕ, Bool, true, false, Option, none, some, List, [], ◌∷◌, Text, if◌then◌else◌,
}
use pms_scanner.Prelude.Int.{ℤ}
use pms_scanner.Ntp.{NtpMeasurement, ClockSyncEvent}
use pms_scanner.Ntp.Drift.{Sink, Checked, HelperRun, check_once}

-- `DriftMonitor`: its settings, `_stop` and whether `_thread` is set. The drift is in microseconds,
-- the interval in seconds.
pub record DriftMonitor : Type 0 where
  pub source : Text
  pub max_drift : ℕ
  pub check_interval : ℕ
  pub command : Option Text
  pub stop_set : Bool
  pub has_thread : Bool

abbrev pub new_monitor : Text → ℕ → ℕ → Option Text → DriftMonitor
new_monitor source max_drift check_interval command = record {
  source = source;
  max_drift = max_drift;
  check_interval = check_interval;
  command = command;
  stop_set = false;
  has_thread = false;
}

abbrev pub start : DriftMonitor → DriftMonitor
start m = if m.has_thread then m else record m { stop_set = false; has_thread = true }

abbrev pub stop : DriftMonitor → DriftMonitor
stop m = record m { stop_set = true; has_thread = false }

-- What a cycle of the thread meets: the wall clock and the answer of the source, or an exception
-- that `measure` is not expected to raise.
pub data Cycle : Type 0 where
  answered : ℕ → Option NtpMeasurement → Cycle
  raised : Cycle

-- `_loop`, over the cycles up to the one at which `_stop` is set. An exception that leaves
-- `check_once` is logged and the loop goes on.
module _ (runner : Text → Text → HelperRun) (m : DriftMonitor) where
  unfoldable pub loop : List Cycle → Sink → Sink
  unfolding check_once
  loop [] s = s
  loop (answered now answer ∷ cycles) s =
      loop cycles (check_once runner m.max_drift m.source now answer m.command s).1
  loop (raised ∷ cycles) s = loop cycles s
