-- ===== src/State/Laws.antt =====
-- scanner/state.py: no update is lost or reaches another environment.
use mathlib.Core.Option
use pms_scanner.Prelude.{
  ℕ, ◌+◌, ◌≡◌, refl, ◌∙◌, Option, some, List, [], ◌∷◌, Text, text_eq, ◌==◌, inl, inr, Bool, true,
  false, keep_if, Option-cases, length, length-append, arith, if◌then◌else◌, Exec, ok,
}
use pms_scanner.Prelude.Dict
use pms_scanner.Ntp.{ClockSyncEvent}
use pms_scanner.State.{
  ErrorRecord, PerEnvRunState, BatchRunState, change, bump_pages, bump_files, log_error,
  show_current, add_pages_uploaded, add_files_processed, add_error, set_current, mark_run_started,
  mark_run_finished, reset_daily, record_clock_sync, zeroed, is_drift_warning,
}

abbrev pub env_state : Text → BatchRunState → Option PerEnvRunState
env_state name s = Dict.lookup name s.per_env

abbrev apply_at :
    Text → Text → (PerEnvRunState → PerEnvRunState) → Option PerEnvRunState → Option PerEnvRunState
apply_at name e f old = if name == e then Option.map f old else old

-- A change of one environment's record is seen there, and nowhere else.
pub env_state-change :
    (name e : Text) (f : PerEnvRunState → PerEnvRunState) (s : BatchRunState)
    → env_state e (change name f s).1 ≡ apply_at name e f (env_state e s)
unfolding change
env_state-change name e f s = elim (Option-cases (env_state name s)) [
  | inl h ↦ rw (h, change) (ground arith)
  | inr (st, h) ↦ rw (h, change, Dict.lookup-insert name e (f st) s.per_env) (ground arith)
]

pub change-some :
    (name : Text) (f : PerEnvRunState → PerEnvRunState) (s : BatchRunState) (st : PerEnvRunState)
    → env_state name s ≡ some st
    → change name f s ≡ (ok tt, record s { per_env = Dict.insert name (f st) s.per_env })
unfolding change
change-some name f s st h = rw (h, change)

-- A call of one of the methods that count.
pub data Update : Type 0 where
  pages files : ℕ → Update
  error : ErrorRecord → Update
  current : Option Text → Option ℕ → Option ℕ → Update
  started finished : ℕ → Update

pub call : Text → Update → Exec BatchRunState (Unit {0})
call name (pages n) = add_pages_uploaded name n
call name (files n) = add_files_processed name n
call name (error r) = add_error name r
call name (current file page total) = set_current name file page total
call name (started when) = mark_run_started name when
call name (finished when) = mark_run_finished name when

-- The calls of all threads, in the order in which they took the lock.
pub calls : List (Text × Update) → BatchRunState → BatchRunState
calls [] s = s
calls ((name, u) ∷ rest) s = calls rest (call name u s).1

abbrev pub effect : Update → PerEnvRunState → PerEnvRunState
effect (pages n) st = bump_pages n st
effect (files n) st = bump_files n st
effect (error r) st = log_error r st
effect (current file page total) st = show_current file page total st
effect (started when) st = record st { last_run_started_at = some when }
effect (finished when) st = record st { last_run_finished_at = some when }

-- The calls for one environment, and what they do to its record.
pub own : Text → List (Text × Update) → List Update
own e [] = []
own e ((name, u) ∷ rest) = if name == e then u ∷ own e rest else own e rest

unfoldable pub effects : List Update → PerEnvRunState → PerEnvRunState
effects [] st = st
effects (u ∷ us) st = effects us (effect u st)

env_state-call :
    (name e : Text) (u : Update) (s : BatchRunState)
    → env_state e (call name u s).1 ≡ apply_at name e (effect u) (env_state e s)
unfolding call add_pages_uploaded add_files_processed add_error set_current mark_run_started
    mark_run_finished
env_state-call name e (pages n) s = env_state-change name e _ s
env_state-call name e (files n) s = env_state-change name e _ s
env_state-call name e (error r) s = env_state-change name e _ s
env_state-call name e (current file page total) s = env_state-change name e _ s
env_state-call name e (started when) s = env_state-change name e _ s
env_state-call name e (finished when) s = env_state-change name e _ s

-- In whatever order the threads of the environments make their calls, the record of an environment
-- is what its own calls, in their order, make of it: no call is lost, and none of another
-- environment shows. An environment that is not configured stays so.
pub calls_isolated :
    (e : Text) (trace : List (Text × Update)) (s : BatchRunState)
    → env_state e (calls trace s) ≡ Option.map (effects (own e trace)) (env_state e s)
unfolding calls own effects
calls_isolated e [] s = ground arith
calls_isolated e ((name, u) ∷ rest) s =
    rw (calls_isolated e rest (call name u s).1, env_state-call name e u s) (ground arith)

abbrev pub pages_of : Update → ℕ
pages_of (pages n) = n
pages_of _ = 0

abbrev pub files_of : Update → ℕ
files_of (files n) = n
files_of _ = 0

abbrev pub errors_of : Update → ℕ
errors_of (error r) = 1
errors_of _ = 0

abbrev pub sum_of : (Update → ℕ) → List Update → ℕ
sum_of f [] = 0
sum_of f (u ∷ us) = f u + sum_of f us

-- The counters of an environment after its calls are the counters before, with the numbers of the
-- calls added up, and one error more for each `add_error`.
pub effects_count :
    (us : List Update) (st : PerEnvRunState)
    → ((effects us st).pages_uploaded ≡ st.pages_uploaded + sum_of pages_of us)
      × ((effects us st).files_processed ≡ st.files_processed + sum_of files_of us)
      × (length (effects us st).errors ≡ length st.errors + sum_of errors_of us)
unfolding effects
effects_count [] st = omega arith
effects_count (error r ∷ us) st =
    omega (arith, effects_count us (effect (error r) st), length-append st.errors (r ∷ []))
effects_count (u ∷ us) st = omega (arith, effects_count us (effect u st))

-- `reset_daily` zeroes the counters and the errors of every configured environment, and leaves its
-- current activity and the times of its last run as they were.
pub reset_daily_lem :
    (e : Text) (s : BatchRunState) → env_state e (reset_daily s) ≡ Option.map zeroed (env_state e s)
unfolding reset_daily
reset_daily_lem e s = Dict.lookup-map zeroed e s.per_env

abbrev pub last_of : List ClockSyncEvent → Option ClockSyncEvent → Option ClockSyncEvent
last_of [] old = old
last_of (e ∷ es) old = last_of es (some e)

last_of-keep :
    (b : Bool) (e : ClockSyncEvent) (es : List ClockSyncEvent) (old : Option ClockSyncEvent)
    → last_of es (if b then some e else old) ≡ last_of (elim b [ true ↦ e ∷ es | false ↦ es ]) old
last_of-keep true e es old = refl
last_of-keep false e es old = refl

unfoldable pub record_all : List ClockSyncEvent → BatchRunState → BatchRunState
record_all [] s = s
record_all (e ∷ es) s = record_all es (record_clock_sync e s)

-- After any events the state shows the last of them, and the last of those with a warning outcome:
-- a later event without a warning does not hide it.
pub record_clock_sync_last :
    (es : List ClockSyncEvent) (s : BatchRunState)
    → ((record_all es s).recent_clock_sync ≡ last_of es s.recent_clock_sync)
      × ((record_all es s).last_drift_warning
          ≡ last_of (keep_if (λ e. is_drift_warning e.outcome) es) s.last_drift_warning)
unfolding record_all record_clock_sync keep_if
record_clock_sync_last [] s = (refl, refl)
record_clock_sync_last (e ∷ es) s =
    let ih = record_clock_sync_last es (record_clock_sync e s) in
    (
      ih.0,
      ih.1
          ∙ last_of-keep (is_drift_warning e.outcome) e
              (keep_if (λ a. is_drift_warning a.outcome) es) _,
    )
