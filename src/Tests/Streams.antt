-- ===== src/Tests/Streams.antt =====
-- The theorems about the log, the clock's events and the stream of events, at concrete data.
use pms_scanner.Prelude.{
  ◌≡◌, refl, true, false, none, some, List, [], ◌∷◌, ◌++◌, map, All, Text, codes, text_eq, nat_eq,
  keep_if, arith,
}
use pms_scanner.Prelude.Int.{pos}
use pms_scanner.Prelude.Dict
use pms_scanner.Prelude.Dict.{Dict}
use pms_scanner.Prelude.Texts.Replace.{StarFree}
use pms_scanner.Machine.{strip}
use pms_scanner.Ntp.{NtpMeasurement, NtpOutcome}
use pms_scanner.Ntp.Drift.{HelperRun, exited}
use pms_scanner.Ntp.Monitor.{DriftMonitor, new_monitor, Cycle, answered, raised, loop}
use pms_scanner.Ntp.Monitor.Shown.{sink_of, onto_stream, events_of, loop_shows_all}
use pms_scanner.State.Laws.{record_all}
use pms_scanner.Dashboard.Events.{generate, event_type}
use pms_scanner.Dashboard.Events.Reading.{received, IsPlain, emit_all, emitted_is_received}
use pms_scanner.Logging.{Loggers, is_secret, filters_of, any_redacting, has_any, make_logger, emit}
use pms_scanner.Logging.Secrets.{Conceals, make_logger-Conceals}
use pms_scanner.Tests.{run_state}

-- A value of an event is a text, and the text of an event is its type in braces.
abbrev dumps : Dict Text Text → Text
dumps [] = codes "{}"
dumps ((k, v) ∷ event) = codes "{" ++ (v ++ codes "}")

abbrev pub reset_event : Dict Text Text
reset_event = (codes "type", codes "reset") ∷ []

reset-IsPlain : IsPlain dumps (λ v. v) reset_event
unfolding event_type Dict.lookup text_eq nat_eq
reset-IsPlain = record {
  type_line = (refl, (refl, (refl, (refl, (refl, tt)))));
  text_line = (refl, (refl, (refl, (refl, (refl, (refl, (refl, tt)))))));
  text = refl;
}

emitted_is_received_example :
    received (
      generate dumps
        (λ v. v)
        (map some
          (emit_all (reset_event ∷ []) (record { has_loop = true; event_queue = [] })).event_queue))
    ≡ map (λ event. (event_type dumps (λ v. v) event, dumps event)) (reset_event ∷ [])
emitted_is_received_example =
    emitted_is_received dumps (λ v. v) (reset_event ∷ []) (reset-IsPlain, tt)

abbrev fix : Text → Text → HelperRun
fix command source = exited (pos 0)

abbrev monitor : DriftMonitor
monitor = new_monitor (codes "pool.ntp.org") 1000000 3600 (some (codes "/fix"))

abbrev late : NtpMeasurement
late = record {
  source = codes "pool.ntp.org";
  offset_seconds = pos 2000000;
  measured_at = 5;
  outcome = NtpOutcome.ok;
  stratum = 2;
}

abbrev cycles : List Cycle
cycles = answered 1 none ∷ raised ∷ answered 5 (some late) ∷ []

loop_shows_all_example :
    loop fix monitor cycles (sink_of run_state [])
    ≡ sink_of
        (record_all (events_of fix monitor cycles) run_state)
        (onto_stream (events_of fix monitor cycles) [])
loop_shows_all_example = loop_shows_all fix monitor cycles run_state []

abbrev format : Text → List Text → Text
format msg [] = msg
format msg (arg ∷ args) = msg ++ arg

abbrev loggers : Loggers
loggers = []

no_filter : any_redacting (filters_of (codes "scanner") loggers) ≡ false
unfolding filters_of Dict.lookup
no_filter = refl

some_secret : has_any (keep_if is_secret (codes "key" ∷ [])) ≡ true
unfolding keep_if strip nat_eq
some_secret = refl

star_free : All StarFree (codes "key" ∷ [])
star_free = ((λ e. omega arith, (λ e. omega arith, (λ e. omega arith, tt))), tt)

make_logger-Conceals_example :
    let (adapter, loggers') =
      make_logger (codes "scanner") (codes "mac") (codes "staging") (codes "key" ∷ []) loggers in
    Conceals
      (keep_if is_secret (codes "key" ∷ []))
      (emit format adapter (codes "token: ") (codes "key" ∷ []) loggers')
make_logger-Conceals_example =
    make_logger-Conceals format (codes "scanner") (codes "mac") (codes "staging") (codes "key" ∷ [])
      loggers (codes "token: ") (codes "key" ∷ []) no_filter star_free
