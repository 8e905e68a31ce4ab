-- ===== src/Ntp/Monitor/Shown.antt =====
-- scanner/ntp.py: what the thread of the `DriftMonitor` leaves in the run state.
use pms_scanner.Prelude.{◌≡◌, refl, ap, ◌∙◌, Option, none, some, List, [], ◌∷◌, Text}
use pms_scanner.Ntp.{
  ClockSyncEvent, ClockSyncOutcome, drift_corrected, drift_uncorrected, unreachable, rejected_kod,
  is_warning,
}
use pms_scanner.Ntp.Drift.{Sink, HelperRun, check, check_once, record_event, record_if}
use pms_scanner.Ntp.Monitor.{DriftMonitor, Cycle, answered, raised, loop}
use pms_scanner.State.{BatchRunState, record_clock_sync, is_drift_warning}
use pms_scanner.State.Laws.{record_all}

-- The sink is the run state, with the events that went to the stream.
abbrev pub sink_of : BatchRunState → List ClockSyncEvent → Sink
sink_of s emitted = record {
  recent_clock_sync = s.recent_clock_sync;
  last_drift_warning = s.last_drift_warning;
  emitted = emitted;
}

-- Older events last.
abbrev pub onto_stream : List ClockSyncEvent → List ClockSyncEvent → List ClockSyncEvent
onto_stream [] emitted = emitted
onto_stream (e ∷ es) emitted = onto_stream es (e ∷ emitted)

-- The two sets of outcomes, of the monitor and of the run state, are the same.
is_warning-is_drift_warning :
    (outcome : ClockSyncOutcome) → is_warning outcome ≡ is_drift_warning outcome
is_warning-is_drift_warning ClockSyncOutcome.ok = refl
is_warning-is_drift_warning drift_corrected = refl
is_warning-is_drift_warning drift_uncorrected = refl
is_warning-is_drift_warning unreachable = refl
is_warning-is_drift_warning rejected_kod = refl

record_event-sink_of :
    (event : ClockSyncEvent) (s : BatchRunState) (emitted : List ClockSyncEvent)
    → record_event event (sink_of s emitted) ≡ sink_of (record_clock_sync event s) (event ∷ emitted)
unfolding record_event record_clock_sync
record_event-sink_of event s emitted = rw (is_warning-is_drift_warning event.outcome) refl

-- The events, and the one of a cycle before them, if it recorded one.
abbrev pub cons_if : Option ClockSyncEvent → List ClockSyncEvent → List ClockSyncEvent
cons_if none events = events
cons_if (some event) events = event ∷ events

module _ (runner : Text → Text → HelperRun) (m : DriftMonitor) where
  -- The events that the cycles record.
  abbrev pub events_of : List Cycle → List ClockSyncEvent
  events_of [] = []
  events_of (answered now answer ∷ cycles) =
      cons_if (check runner m.max_drift m.source now answer m.command).event (events_of cycles)
  events_of (raised ∷ cycles) = events_of cycles

  -- However many cycles the thread runs, and whichever of them raise, the run state becomes what
  -- `record_clock_sync` of each event, in order, would make of it, although the monitor writes its
  -- fields itself and by a set of warning outcomes of its own, and each event has gone to the
  -- stream once. A cycle whose check raises leaves no event.
  pub loop_shows_all :
      (cycles : List Cycle) (s : BatchRunState) (emitted : List ClockSyncEvent)
      → loop runner m cycles (sink_of s emitted)
        ≡ sink_of (record_all (events_of cycles) s) (onto_stream (events_of cycles) emitted)
  unfolding loop check_once record_all
  loop_shows_all [] s emitted = refl
  loop_shows_all (answered now answer ∷ cycles) s emitted =
      by_event (loop_shows_all cycles)
        (check runner m.max_drift m.source now answer m.command).event
    where
      by_event :
          ((s : BatchRunState) (emitted : List ClockSyncEvent)
            → loop runner m cycles (sink_of s emitted)
              ≡ sink_of (record_all (events_of cycles) s) (onto_stream (events_of cycles) emitted))
          → (e : Option ClockSyncEvent)
          → loop runner m cycles (record_if e (sink_of s emitted))
            ≡ sink_of
                (record_all (cons_if e (events_of cycles)) s)
                (onto_stream (cons_if e (events_of cycles)) emitted)
      by_event ih none = ih s emitted
      by_event ih (some event) =
          ap (loop runner m cycles) (record_event-sink_of event s emitted)
          ∙ ih (record_clock_sync event s) (event ∷ emitted)
  loop_shows_all (raised ∷ cycles) s emitted = loop_shows_all cycles s emitted
