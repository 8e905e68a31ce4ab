-- ===== src/Ntp/Gate.antt =====
-- scanner/ntp.py: `NTPGate.verify`, the startup gate.
use pms_scanner.Prelude.{
  ℕ, zero, suc, ◌+◌, ◌≤◌, ◌<◌, ◌≡◌, refl, ap, inl, inr, Bool, true, false, Option, none, some, ltb,
  leb, Bool-cases, Option-cases, ltb→lt, ltb→ge, leb→le, leb→gt, arith, if◌then◌else◌,
}
use mathlib.Core.Path.{subst}
use mathlib.Core.Option.{none-ne-some}
use native.Mathlib.Nat.{zero-add}
use native.Mathlib.Numerals.{add-one}
use pms_scanner.Prelude.Int.{abs}
use pms_scanner.Ntp.{NtpMeasurement, NtpOutcome}

-- The measurement returned, or the `NTPStartupError` for the drift or for the timeout.
pub data Verdict : Type 0 where
  passed : NtpMeasurement → Verdict
  drift_exceeded : NtpMeasurement → Verdict
  no_response : Verdict

abbrev pub if_ok : NtpOutcome → NtpMeasurement → Option NtpMeasurement
if_ok NtpOutcome.ok m = some m
if_ok NtpOutcome.rejected_kod m = none

-- `measurement is not None and measurement.outcome == "ok"`
abbrev pub usable : Option NtpMeasurement → Option NtpMeasurement
usable none = none
usable (some m) = if_ok m.outcome m

abbrev pub judge : ℕ → NtpMeasurement → Verdict
judge max_drift m = if ltb max_drift (abs m.offset_seconds) then drift_exceeded m else passed m

-- One round: a usable measurement is judged; without one the deadline is looked at.
abbrev pub end_round : ℕ → Option NtpMeasurement → Bool → Option Verdict → Option Verdict
end_round max_drift (some m) late next = some (judge max_drift m)
end_round max_drift none true next = some no_response
end_round max_drift none false next = next

-- The answers of the source and the readings of the monotonic clock, by the number of the call: the
-- reading 0 sets the deadline, and the reading i + 1 follows the measurement i.
module _ (measures : ℕ → Option NtpMeasurement) (monotonic : ℕ → ℕ) (max_drift timeout : ℕ) where
  -- The `while True` of `verify`, from the measurement `i`, for a number of rounds.
  unfoldable pub verify_rounds : ℕ → ℕ → Option Verdict
  verify_rounds zero i = none
  verify_rounds (suc rounds) i =
      let next = verify_rounds rounds (suc i) in
      end_round max_drift (usable (measures i)) (leb (monotonic 0 + timeout) (monotonic (suc i)))
        next

  -- Enough rounds for any clock that moves on by at least one unit at each sleep.
  unfoldable pub verify : Option Verdict
  verify = verify_rounds (timeout + 1) 0

  -- From the measurement `i`, the next `k` give nothing usable, and the deadline is not reached.
  abbrev pub AllWaited : ℕ → ℕ → Type 0
  AllWaited zero i = Unit
  AllWaited (suc k) i =
      (usable (measures i) ≡ none)
      × (monotonic (suc i) < monotonic 0 + timeout)
      × AllWaited k (suc i)

  -- How the gate ends: by the first usable measurement, or at the deadline.
  pub data GateStory (i : ℕ) (v : Option Verdict) : Type 0 where
    passes :
        (k : ℕ) (m : NtpMeasurement)
        → AllWaited k i
        → usable (measures (k + i)) ≡ some m
        → abs m.offset_seconds ≤ max_drift
        → v ≡ some (passed m)
        → GateStory i v
    refuses :
        (k : ℕ) (m : NtpMeasurement)
        → AllWaited k i
        → usable (measures (k + i)) ≡ some m
        → max_drift < abs m.offset_seconds
        → v ≡ some (drift_exceeded m)
        → GateStory i v
    gives_up :
        (k : ℕ)
        → AllWaited k i
        → usable (measures (k + i)) ≡ none
        → monotonic 0 + timeout ≤ monotonic (suc (k + i))
        → v ≡ some no_response
        → GateStory i v

  shift : (k i : ℕ) → k + suc i ≡ suc k + i
  shift k i = omega arith

  waited :
      (i : ℕ) (v : Option Verdict)
      → usable (measures i) ≡ none
      → monotonic (suc i) < monotonic 0 + timeout
      → GateStory (suc i) v
      → GateStory i v
  waited i v u early (passes k m all found within e) =
      passes (suc k) m (u, early, all) (rw (shift k i) at found) within e
  waited i v u early (refuses k m all found beyond e) =
      refuses (suc k) m (u, early, all) (rw (shift k i) at found) beyond e
  waited i v u early (gives_up k all nothing late e) =
      gives_up (suc k) (u, early, all) (rw (shift k i) at nothing) (rw (shift k i) at late) e

  judged :
      (i : ℕ) (m : NtpMeasurement)
      → usable (measures i) ≡ some m
      → GateStory i (some (judge max_drift m))
  judged i m found = elim (Bool-cases (ltb max_drift (abs m.offset_seconds))) [
    | inl e ↦ rw e (refuses 0 m tt (rw zero-add found) (ltb→lt _ _ e) refl)
    | inr e ↦ rw e (passes 0 m tt (rw zero-add found) (ltb→ge _ _ e) refl)
  ]

  one_round :
      (i : ℕ) (next : Option Verdict)
      → (monotonic (suc i) < monotonic 0 + timeout → GateStory (suc i) next)
      → GateStory i (
          end_round max_drift
            (usable (measures i))
            (leb (monotonic 0 + timeout) (monotonic (suc i)))
            next)
  one_round i next again = elim (Option-cases (usable (measures i))) [
    | inr (m, found) ↦ rw found (judged i m found)
    | inl nothing ↦ elim (Bool-cases (leb (monotonic 0 + timeout) (monotonic (suc i)))) [
      | inl late ↦
          rw (nothing, late)
            (gives_up 0 tt (rw zero-add nothing) (rw zero-add (leb→le _ _ late)) refl)
      | inr early ↦
          rw (nothing, early) (waited i next nothing (leb→gt _ _ early) (again (leb→gt _ _ early)))
    ]
  ]

  verify_rounds-GateStory :
      ((i : ℕ) → monotonic (suc i) < monotonic (suc (suc i)))
      → (rounds i : ℕ) → monotonic 0 + timeout ≤ monotonic (suc i) + rounds
      → GateStory i (verify_rounds (suc rounds) i)
  unfolding verify_rounds
  verify_rounds-GateStory moves zero i soon = one_round i none (λ early. absurd (omega arith))
  verify_rounds-GateStory moves (suc rounds) i soon =
      one_round i _ (λ early. verify_rounds-GateStory moves rounds (suc i) (omega (arith, moves i)))

  -- If the clock never goes back and moves on with every sleep, `verify` ends. It passes on the
  -- first usable measurement, if its offset is at most the allowed drift, and refuses on the first
  -- usable one, if its offset is larger; it refuses for want of a response only at the deadline,
  -- with no usable measurement so far.
  pub verify_story :
      monotonic 0 ≤ monotonic 1
      → ((i : ℕ) → monotonic (suc i) < monotonic (suc (suc i)))
      → GateStory 0 verify
  unfolding verify
  verify_story begins moves = rw add-one (verify_rounds-GateStory moves timeout 0 (omega arith))

abbrev measured_or : NtpMeasurement → Option Verdict → NtpMeasurement
measured_or d (some (passed m)) = m
measured_or d _ = d

-- A measurement that the gate lets pass is within the limit.
module _ (max_drift : ℕ) (m : NtpMeasurement) where
  abbrev Within : Option Verdict → Type 0
  Within v = v ≡ some (passed m) → abs m.offset_seconds ≤ max_drift

  judge-Within : (x : NtpMeasurement) → Within (some (judge max_drift x))
  judge-Within x h = elim (Bool-cases (ltb max_drift (abs x.offset_seconds))) [
    | inl e ↦ absurd (exceeded_ne x (rw e at h))
    | inr e ↦
        subst (λ (y : NtpMeasurement). abs y.offset_seconds ≤ max_drift)
          (ap (measured_or x) (rw e at h)) (ltb→ge _ _ e)
  ]
    where
      exceeded_ne : (y : NtpMeasurement) → some (drift_exceeded y) ≡ some (passed m) → ⊥
      exceeded_ne y k = cc

  end_round-Within :
      (v : Option NtpMeasurement) (late : Bool) (next : Option Verdict)
      → Within next
      → Within (end_round max_drift v late next)
  end_round-Within (some x) late next k h = judge-Within x h
  end_round-Within none true next k h = absurd (silent_ne h)
    where
      silent_ne : some no_response ≡ some (passed m) → ⊥
      silent_ne k = cc
  end_round-Within none false next k h = k h

  verify_rounds-Within :
      (measures : ℕ → Option NtpMeasurement) (monotonic : ℕ → ℕ) (timeout rounds i : ℕ)
      → Within (verify_rounds measures monotonic max_drift timeout rounds i)
  unfolding verify_rounds
  verify_rounds-Within measures monotonic timeout zero i h = absurd (none-ne-some _ h)
  verify_rounds-Within measures monotonic timeout (suc rounds) i h =
      end_round-Within _ _ _ (verify_rounds-Within measures monotonic timeout rounds (suc i)) h

  pub verify-Within :
      (measures : ℕ → Option NtpMeasurement) (monotonic : ℕ → ℕ) (timeout : ℕ)
      → Within (verify measures monotonic max_drift timeout)
  unfolding verify
  verify-Within measures monotonic timeout =
      verify_rounds-Within measures monotonic timeout (timeout + 1) 0
