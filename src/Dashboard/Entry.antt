-- ===== src/Dashboard/Entry.antt =====
-- scanner/dashboard.py: the entry of an environment at `/status`, read off its settings and the
-- calls of its runs.
use pms_scanner.Prelude.{
  ℕ, ◌≡◌, refl, sym, if◌then◌else◌, Option, none, some, List, Text, length, arith,
}
use pms_scanner.Config.{Environment}
use pms_scanner.State.{PerEnvRunState, fresh}
use pms_scanner.State.Laws.{Update, effects, effects_count, sum_of, pages_of, files_of, errors_of}
use pms_scanner.State.After.{file_after, start_after, end_after, effects_after}
use pms_scanner.Dashboard.{PerEnvRun, EnvStatus, run_of, is_some, per_env_run, env_status}

-- The run that the calls have made, which started at `when`.
pub record IsRun (name : Text) (us : List Update) (when : ℕ) (run : PerEnvRun) : Type 0 where
  pub environment : run.environment ≡ name
  pub started_at : run.started_at ≡ when
  pub finished_at : run.finished_at ≡ end_after us none
  pub current_file : run.current_file ≡ file_after us none
  pub pages_uploaded : run.pages_uploaded ≡ sum_of pages_of us
  pub files_processed : run.files_processed ≡ sum_of files_of us
  pub errors : length run.errors ≡ sum_of errors_of us

-- The current run and the last one: none of them before the first start, and then the one or the
-- other, the current one where a file was named.
pub data RunsShown (name : Text) (us : List Update)
    : Option PerEnvRun → Option PerEnvRun → Type 0 where
  not_started : start_after us none ≡ none → RunsShown name us none none
  as_current :
      (file : Text) (when : ℕ) (run : PerEnvRun)
      → file_after us none ≡ some file
      → start_after us none ≡ some when
      → IsRun name us when run
      → RunsShown name us (some run) none
  as_last :
      (when : ℕ) (run : PerEnvRun)
      → file_after us none ≡ none
      → start_after us none ≡ some when
      → IsRun name us when run
      → RunsShown name us none (some run)

-- A run that is shown, if there is one.
abbrev pub RunIf : Text → List Update → Option PerEnvRun → Type 0
RunIf name us none = start_after us none ≡ none
RunIf name us (some run) = (when : ℕ) × (start_after us none ≡ some when) × IsRun name us when run

-- The entry of an environment whose runs have made these calls.
pub record IsEntry (e : Environment) (us : List Update) (entry : EnvStatus) : Type 0 where
  pub enabled : entry.enabled ≡ e.enabled
  pub schedule_offset_seconds : entry.schedule_offset_seconds ≡ e.schedule_offset_seconds
  pub backend_base_url : entry.backend_base_url ≡ e.backend_base_url
  pub runs : RunsShown e.name us entry.current_run entry.last_run

module _ (machine : Text) (e : Environment) (us : List Update) where
  abbrev pub record_after : PerEnvRunState
  record_after = effects us (fresh machine e.name)

  run_of-IsRun : (when : ℕ) → IsRun e.name us when (run_of e.name record_after when)
  run_of-IsRun when =
      let (file, start, finish) = effects_after us (fresh machine e.name) in
      let (pages, files, errors) = effects_count us (fresh machine e.name) in
      record {
        environment = refl;
        started_at = refl;
        finished_at = finish;
        current_file = file;
        pages_uploaded = omega (arith, pages);
        files_processed = omega (arith, files);
        errors = omega (arith, errors);
      }

  per_env_run-RunIf :
      (start : Option ℕ)
      → record_after.last_run_started_at ≡ start
      → start_after us none ≡ start
      → RunIf e.name us (per_env_run e.name record_after)
  unfolding per_env_run
  per_env_run-RunIf none s h = rw (s, per_env_run) h
  per_env_run-RunIf (some when) s h = rw (s, per_env_run) (when, h, run_of-IsRun when)

  placed :
      (file : Option Text) (run : Option PerEnvRun)
      → file_after us none ≡ file
      → RunIf e.name us run
      → RunsShown e.name us
          (if is_some file then run else none)
          (if is_some file then none else run)
  placed none none k h = not_started h
  placed (some file) none k h = not_started h
  placed none (some run) k (when, h, made) = as_last when run k h made
  placed (some file) (some run) k (when, h, made) = as_current file when run k h made

  pub env_status-IsEntry : IsEntry e us (env_status e record_after)
  unfolding env_status
  env_status-IsEntry =
      let (file, start, finish) = effects_after us (fresh machine e.name) in
      record {
        enabled = refl;
        schedule_offset_seconds = refl;
        backend_base_url = refl;
        runs =
            placed record_after.current_file (per_env_run e.name record_after) (sym file)
              (per_env_run-RunIf _ start refl);
      }
