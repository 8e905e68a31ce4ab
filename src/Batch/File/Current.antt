-- ===== src/Batch/File/Current.antt =====
-- The `current_file` that the dashboard shows, through `_process_file`.
use mathlib.Core.Option
use mathlib.Core.Option.{none-ne-some, some-injective}
use pms_scanner.Prelude.{
  ℕ, ◌≡◌, refl, ◌∙◌, ap, inl, inr, Bool, true, false, Option, none, some, Option-cases, List, Text,
  text_eq, ◌==◌, ==-refl, handling, if◌then◌else◌, Result, ok, raised, ◌>>=◌, ◌>>◌,
}
use pms_scanner.Prelude.Dict
use pms_scanner.State.{
  PerEnvRunState, BatchRunState, change, add_pages_uploaded, add_files_processed, add_error,
  set_current, show_current, bump_pages, bump_files, log_error, ErrorRecord,
}
use pms_scanner.State.Laws.{env_state, env_state-change, change-some}
use pms_scanner.Tree.{Folder}
use pms_scanner.Pdf.{PageImage}
use pms_scanner.Batch.Preserves.{Preserves, preserves_rules}
use pms_scanner.Batch.World.{Outside, Runner, World, Status, file_started, on_run, fire}
use pms_scanner.Batch.World.Frame.{on_run-run, on_net-run, on_tree-run, fire-run, notify-run}
use pms_scanner.Batch.File.Loop.{Steady, load_pages-Preserves, process_pages-Preserves}
use pms_scanner.Batch.File.{
  load_pages, process_pages, quarantine_notice, move, dispose, try_file, on_exception, swallow,
  handle, at_last, process_file, Flags,
}

-- `per_env[e].current_file`; the outer `none` is an environment that is not configured.
abbrev pub shown : Text → BatchRunState → Option (Option Text)
shown e s = Option.map (λ (st : PerEnvRunState). st.current_file) (env_state e s)

-- The current file, and when the last run started.
abbrev seen : PerEnvRunState → Option Text × Option ℕ
seen st = (st.current_file, st.last_run_started_at)

module _ (e name : Text) (started : Option ℕ) where
  abbrev R : BatchRunState → Type 0
  R s = Option.map seen (env_state e s) ≡ some (some name, started)

  kept :
      (b : Bool) (f : PerEnvRunState → PerEnvRunState) (old : Option PerEnvRunState)
      → ((st : PerEnvRunState) → seen (f st) ≡ seen st)
      → Option.map seen old ≡ some (some name, started)
      → Option.map seen (if b then Option.map f old else old) ≡ some (some name, started)
  kept true f none same h = h
  kept true f (some st) same h = ap some (same st) ∙ h
  kept false f old same h = h

  change-shown :
      (n : Text) (f : PerEnvRunState → PerEnvRunState)
      → ((st : PerEnvRunState) → seen (f st) ≡ seen st)
      → Preserves R (change n f)
  change-shown n f same = record {
    at = λ s h. rw env_state-change (kept (n == e) f (env_state e s) same h);
  }

  add_pages-shown : (n : Text) (k : ℕ) → Preserves (λ w. R w.run) (on_run (add_pages_uploaded n k))
  unfolding add_pages_uploaded
  add_pages-shown n k = on_run-run R _ (change-shown n (bump_pages k) (λ st. refl))

  add_files-shown : (n : Text) (k : ℕ) → Preserves (λ w. R w.run) (on_run (add_files_processed n k))
  unfolding add_files_processed
  add_files-shown n k = on_run-run R _ (change-shown n (bump_files k) (λ st. refl))

  add_error-shown : (n : Text) (x : ErrorRecord) → Preserves (λ w. R w.run) (on_run (add_error n x))
  unfolding add_error
  add_error-shown n x = on_run-run R _ (change-shown n (log_error x) (λ st. refl))

  -- `current_file=None` leaves the field alone.
  set_current-shown :
      (n : Text) (page total : Option ℕ)
      → Preserves (λ w. R w.run) (on_run (set_current n none page total))
  unfolding set_current
  set_current-shown n page total =
      on_run-run R _ (change-shown n (show_current none page total) (λ st. refl))

  ruleset shown_rules =
      (preserves_rules, add_pages-shown, add_files-shown, add_error-shown, set_current-shown)

  steady : (o : Outside) (r : Runner) → Steady o r (λ w. R w.run)
  steady o r = record {
    pages = add_pages-shown;
    errors = add_error-shown;
    current = set_current-shown;
    net = λ n page_num image. on_net-run R _;
    events = fire-run R r;
  }

  module _ (o : Outside) (r : Runner) where
    load_pages-shown : (f : Text) → Preserves (λ w. R w.run) (load_pages o r f)
    load_pages-shown = load_pages-Preserves o r _ (steady o r)

    process_pages-shown :
        (f : Text) (total : ℕ) (flags : Flags) (pages : List (PageImage o.imaging.Image))
        → Preserves (λ w. R w.run) (process_pages o r f total flags pages)
    process_pages-shown = process_pages-Preserves o r _ (steady o r)

    quarantine_notice-shown : (f : Text) → Preserves (λ w. R w.run) (quarantine_notice o r f)
    unfolding quarantine_notice
    quarantine_notice-shown f = elim (Option-cases r.notifier) [
      | inl p ↦ rw p (search preserves_rules)
      | inr (settings, p) ↦ rw p (notify-run R _)
    ]

    move-shown : (f : Text) (folder : Folder) → Preserves (λ w. R w.run) (move o r f folder)
    unfolding move
    move-shown f folder = on_tree-run R _

    dispose-shown : (f : Text) (flags : Flags) → Preserves (λ w. R w.run) (dispose o r f flags)
    unfolding dispose
    dispose-shown f flags = search (shown_rules, move-shown, quarantine_notice-shown) depth 8

    try_file-shown : (f : Text) → Preserves (λ w. R w.run) (try_file o r f)
    unfolding try_file
    try_file-shown f =
        search (shown_rules, load_pages-shown, process_pages-shown, dispose-shown) depth 8

    swallow-shown : (res : Result (Unit {0})) → Preserves (λ w. R w.run) (swallow o r res)
    unfolding swallow
    swallow-shown res = search preserves_rules

    handle-shown : (f : Text) (res : Result Status) → Preserves (λ w. R w.run) (handle o r f res)
    unfolding on_exception
    handle-shown f (ok status) = search preserves_rules
    handle-shown f (raised exc) = search (shown_rules, move-shown, swallow-shown) depth 8

    at_last-shown : (f : Text) (res : Result Status) → Preserves (λ w. R w.run) (at_last o r f res)
    unfolding at_last
    at_last-shown f res = search (shown_rules, fire-run R) depth 8

    behind_start :
        (f : Text)
        → Preserves
            (λ w. R w.run)
            (do
              fire r (file_started f)
              handling (handling (try_file o r f) (handle o r f)) (at_last o r f))
    behind_start f =
        search (preserves_rules, fire-run R, try_file-shown, handle-shown, at_last-shown) depth 8

-- The record that `_process_file` leaves in a configured environment.
pub process_file_leaves :
    (o : Outside) (r : Runner) (name : Text) (w : World) (st : PerEnvRunState)
    → env_state r.env.name w.run ≡ some st
    → (st' : PerEnvRunState) × (env_state r.env.name (process_file o r name w).1.run ≡ some st')
      × (st'.current_file ≡ some name)
      × (st'.last_run_started_at ≡ st.last_run_started_at)
unfolding process_file ◌>>=◌ on_run set_current
process_file_leaves o r name w st h =
    rw (change-some r.env.name (show_current (some name) (some 0) none) w.run st h) (
      known _ (
        (behind_start r.env.name name st.last_run_started_at o r name).at _
          (rw (Dict.lookup-insert r.env.name r.env.name, ==-refl r.env.name) refl)))
  where
    known :
        (found : Option PerEnvRunState)
        → Option.map seen found ≡ some (some name, st.last_run_started_at)
        → (st' : PerEnvRunState) × (found ≡ some st')
          × (st'.current_file ≡ some name)
          × (st'.last_run_started_at ≡ st.last_run_started_at)
    known none k = absurd (none-ne-some _ k)
    known (some st') k =
        let e = some-injective _ _ k in (st', refl, ap (λ p. p.0) e, ap (λ p. p.1) e)

-- In a configured environment the file stays the current one after `_process_file` has dealt with
-- it, whatever came of it: the `set_current(..., current_file=None)` at the end clears nothing.
pub process_file_stays_current :
    (o : Outside) (r : Runner) (name : Text) (w : World) (st : PerEnvRunState)
    → env_state r.env.name w.run ≡ some st
    → shown r.env.name (process_file o r name w).1.run ≡ some (some name)
process_file_stays_current o r name w st h =
    let (st', found, current, same) = process_file_leaves o r name w st h in
    rw found (ap some current)
