-- ===== src/Batch/File.antt =====
-- scanner/batch.py: `_process_file` and `_dispose`, for a file that this machine has claimed.
pub mod Loop
pub mod Places
pub mod Kept
pub mod Frees
pub mod Accepted
pub mod Posts
pub mod Told
pub mod Reported
pub mod Current
pub mod Pages
pub mod Outcome
pub mod Unreadable
use pms_scanner.Prelude.{
  ℕ, Bool, true, false, ◌&&◌, ◌||◌, Option, none, some, List, [], ◌∷◌, ◌++◌, Text, codes,
  if◌then◌else◌, length, Exec, Result, ok, raised, Fault, file_not_found, pure, lift, reading,
  handling, ◌>>=◌, ◌>>◌,
}
use pms_scanner.State.{ErrorRecord, add_pages_uploaded, add_files_processed, add_error, set_current}
use pms_scanner.Uploader.{UploadOutcome, accepted, rejected, failed}
use pms_scanner.Tree.{Folder, watch, processed, in_progress, FilePath, at, find, rename}
use pms_scanner.Pdf.{Imaging, PageImage, process_pdf}
use pms_scanner.Notify.{NotifySettings, Notice, notify_quarantine}
use pms_scanner.Batch.World.{
  Outside, Runner, World, Status, completed, failed_permanent, page_done, file_started, file_done,
  on_tree, on_run, on_net, fire, notify, now,
}
use pms_scanner.Batch.Page.{upload_page_with_downsample}

-- `UploadOutcome.value`
abbrev pub value : UploadOutcome → Text
value accepted = codes "accepted"
value rejected = codes "rejected"
value failed = codes "failed"

abbrev pub is_accepted : UploadOutcome → Bool
is_accepted accepted = true
is_accepted _ = false

abbrev pub is_rejected : UploadOutcome → Bool
is_rejected rejected = true
is_rejected _ = false

-- `all_ok` and `unrecoverable`
pub record Flags : Type 0 where
  pub all_ok : Bool
  pub unrecoverable : Bool

abbrev pub update_flags : Flags → UploadOutcome → Flags
update_flags flags outcome = record {
  all_ok = flags.all_ok && is_accepted outcome;
  unrecoverable = flags.unrecoverable || is_rejected outcome;
}

module _ (o : Outside) (r : Runner) where
  open o use {imaging}
  open imaging use {Image}

  -- `self.env.in_progress_dir(self.machine)`
  abbrev pub in_self : Folder
  in_self = in_progress r.machine.name

  -- `process_pdf(claimed)`
  unfoldable pub load_pages : Text → Exec World (List (PageImage Image))
  load_pages name w = elim (find (at in_self name) w.tree) [
    | none ↦ (raised file_not_found, w)
    | some node ↦ (process_pdf imaging name node.bytes, w)
  ]

  -- The counter, or the error record, of one page.
  unfoldable pub note_outcome : Text → ℕ → UploadOutcome → Exec World (Unit {0})
  note_outcome name page_num accepted = on_run (add_pages_uploaded r.env.name 1)
  note_outcome name page_num outcome = reading λ w. on_run (
      add_error r.env.name (record {
        filename = name;
        message = codes "upload " ++ value outcome;
        page_num = some page_num;
        at = now o w;
      }))

  unfoldable pub process_page : Text → ℕ → Flags → PageImage Image → Exec World Flags
  process_page name total flags page = do
    uploaded ← on_net (upload_page_with_downsample o r name page.page_num page.image)
    note_outcome name page.page_num uploaded.0
    on_run (set_current r.env.name none (some page.page_num) none)
    fire r (
        page_done name page.page_num total (is_accepted uploaded.0) page.rotation_applied
          uploaded.1)
    pure (update_flags flags uploaded.0)

  -- `for page_num, image, _uncertain, rotation in pages`
  unfoldable pub process_pages : Text → ℕ → Flags → List (PageImage Image) → Exec World Flags
  process_pages name total flags [] = pure flags
  process_pages name total flags (page ∷ pages) = do
    flags' ← process_page name total flags page
    process_pages name total flags' pages

  -- `notify_quarantine` of the notifier, as the runner calls it.
  abbrev pub quarantine_of : NotifySettings → Text → Notice
  quarantine_of settings name =
      notify_quarantine o.smtp settings name (r.env.watch_dir ++ codes "/failed") r.env.name
        r.machine.name
        (codes
          "backend permanently rejected a page even after downsampling to the lowest fallback resolution")

  unfoldable pub quarantine_notice : Text → Exec World (Unit {0})
  quarantine_notice name = elim r.notifier [
    | none ↦ pure tt
    | some settings ↦ notify (quarantine_of settings name)
  ]

  unfoldable pub move : Text → Folder → Exec World (Unit {0})
  move name folder = on_tree (rename o.denied (at in_self name) (at folder name))

  -- `_dispose`
  unfoldable pub dispose : Text → Flags → Exec World Status
  dispose name flags =
      if flags.all_ok
      then (do move name processed; on_run (add_files_processed r.env.name 1); pure completed)
      else if flags.unrecoverable
      then (do move name Folder.failed; quarantine_notice name; pure failed_permanent)
      else (do move name watch; pure Status.failed)

  -- The `try` block.
  unfoldable pub try_file : Text → Exec World Status
  try_file name = do
    pages ← load_pages name
    on_run (set_current r.env.name none none (some (length pages)))
    flags ←
        process_pages name (length pages) (record { all_ok = true; unrecoverable = false }) pages
    dispose name flags

  -- `except OSError: pass`
  unfoldable pub swallow : Result (Unit {0}) → Exec World (Unit {0})
  swallow _ = pure tt

  -- The `except Exception` block; `except OSError: pass` is around its rename.
  unfoldable pub on_exception : Text → Fault → Exec World Status
  on_exception name exc = do
    (reading λ w. on_run (
        add_error r.env.name
          (record { filename = name; message = o.describe exc; page_num = none; at = now o w })))
    handling (move name watch) swallow
    pure Status.failed

  abbrev pub handle : Text → Result Status → Exec World Status
  handle name (ok status) = pure status
  handle name (raised exc) = on_exception name exc

  -- The status that `file_done` carries: "failed" where the handler raised too.
  abbrev pub final_status : Result Status → Status
  final_status (ok status) = status
  final_status (raised exc) = Status.failed

  -- The `finally` block. Its call is `set_current(env, current_file=None)`.
  unfoldable pub at_last : Text → Result Status → Exec World Status
  at_last name result = do
    on_run (set_current r.env.name none none none)
    fire r (file_done name (final_status result))
    lift result

  -- `_process_file`: the status is the one that it reports by its last event.
  unfoldable pub process_file : Text → Exec World Status
  process_file name = do
    on_run (set_current r.env.name (some name) (some 0) none)
    fire r (file_started name)
    handling (handling (try_file name) (handle name)) (at_last name)
