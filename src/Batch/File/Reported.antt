-- ===== src/Batch/File/Reported.antt =====
-- scanner/batch.py: how `_process_file` tells of a file's end, by its last event and by a notice.
use pms_scanner.Prelude.{◌≡◌, ap, refl, true, none, some, List, ◌∷◌, Text, ok, Fault, text_eq}
use pms_scanner.Tree.{Folder, watch, processed}
use pms_scanner.Notify.{NotifySettings, Notice}
use pms_scanner.Batch.Ensures.{
  Ensures, Never, Ensures-pure, Ensures-lift, Ensures-Never, Ensures-kept, Ensures-reading,
  Ensures-if, Ensures-bind, Ensures-handling, Ensures-end,
}
use pms_scanner.Batch.World.{
  Outside, Runner, World, Status, completed, failed_permanent, Event, file_started, file_done,
  event, fire, notify,
}
use pms_scanner.Batch.File.Told.{
  Told, add_files-Told, set_current-Told, add_error_sure, set_current_sure, fire_sure,
  load_pages-Told, process_pages-Told, move-Told,
}
use pms_scanner.Batch.File.Kept.{Configured}
use pms_scanner.Batch.File.{
  quarantine_notice, move, dispose, try_file, on_exception, quarantine_of, swallow, handle, at_last,
  process_file, Flags,
}

-- The notices after a file that ends with this status.
abbrev pub notices_after :
    Outside → Runner → NotifySettings → Text → Status → List Notice → List Notice
notices_after o r settings name failed_permanent ns = quarantine_of o r settings name ∷ ns
notices_after o r settings name status ns = ns

module _ (o : Outside) (r : Runner) (name : Text) (settings : NotifySettings)
    (has_notifier : r.notifier ≡ some settings) (ns : List Notice) where
  abbrev Ended : Status → World → Type 0
  Ended status = Told r.env.name (notices_after o r settings name status ns)

  notice-Told :
      (R : World → Type 0)
      → Ensures (Told r.env.name ns) (λ u. Ended failed_permanent) R (quarantine_notice o r name)
  unfolding quarantine_notice notify
  notice-Told R =
      rw has_notifier
        (record { at = λ w h. (h.0, ap (λ l. quarantine_of o r settings name ∷ l) h.1) })

  moved :
      (folder : Folder)
      → Ensures
          (Told r.env.name ns)
          (λ u. Told r.env.name ns)
          (Told r.env.name ns)
          (move o r name folder)
  moved folder = Ensures-kept _ (move-Told r.env.name ns o r name folder)

  dispose-Ended :
      (flags : Flags)
      → Ensures (Told r.env.name ns) Ended (Told r.env.name ns) (dispose o r name flags)
  unfolding dispose
  dispose-Ended flags =
      Ensures-if flags.all_ok _ _
        (Ensures-bind (moved processed) (λ _.
          Ensures-bind (Ensures-kept _ (add_files-Told r.env.name ns _ _))
            (λ _. Ensures-pure {Q = Ended} completed)))
        (Ensures-if flags.unrecoverable _ _
          (Ensures-bind (moved Folder.failed) (λ _.
            Ensures-bind (notice-Told (Told r.env.name ns))
              (λ _. Ensures-pure {Q = Ended} failed_permanent)))
          (Ensures-bind (moved watch) (λ _. Ensures-pure {Q = Ended} Status.failed)))

  try_file-Ended : Ensures (Told r.env.name ns) Ended (Told r.env.name ns) (try_file o r name)
  unfolding try_file
  try_file-Ended = Ensures-bind (Ensures-kept _ (load_pages-Told r.env.name ns o r name)) (λ pages.
      Ensures-bind (Ensures-kept _ (set_current-Told r.env.name ns _ _ _ _)) (λ _.
        Ensures-bind (Ensures-kept _ (process_pages-Told r.env.name ns o r name _ _ pages))
          dispose-Ended))

  on_exception-Ended :
      (exc : Fault) → Ensures (Told r.env.name ns) Ended Never (on_exception o r name exc)
  unfolding on_exception swallow
  on_exception-Ended exc =
      Ensures-bind (Ensures-reading _ (λ w. add_error_sure r.env.name ns _)) (λ _.
        Ensures-bind
          (Ensures-handling (swallow o r) (moved watch) (λ _. Ensures-pure _) (λ e. Ensures-pure _))
          (λ _. Ensures-pure {Q = Ended} Status.failed))

  module _ (emits : r.emit ≡ true) where
    -- The file's end, with the event that tells it.
    abbrev Reported : Status → World → Type 0
    Reported status w =
        Ended status w
        × ((older : List Event) × (w.events ≡ event r (file_done name status) ∷ older))

    fire-Reported :
        (status : Status)
        → Ensures (Ended status) (λ u. Reported status) Never (fire r (file_done name status))
    unfolding fire
    fire-Reported status = record { at = λ w h. (h, (w.events, rw emits refl)) }

    at_last-Reported :
        (status : Status) → Ensures (Ended status) Reported Never (at_last o r name (ok status))
    unfolding at_last
    at_last-Reported status =
        Ensures-bind (set_current_sure r.env.name _ none none none)
          (λ _. Ensures-bind (fire-Reported status) (λ _. Ensures-lift {Q = Reported} status))

    process_file-Reported : Ensures (Told r.env.name ns) Reported Never (process_file o r name)
    unfolding process_file
    process_file-Reported =
        Ensures-bind (set_current_sure r.env.name ns (some name) (some 0) none) (λ _.
          Ensures-bind (fire_sure r.env.name ns r (file_started name)) (λ _.
            Ensures-handling (at_last o r name)
              (Ensures-handling (handle o r name) try_file-Ended
                (λ status. Ensures-pure {Q = Ended} status) on_exception-Ended)
              at_last-Reported (λ exc. Ensures-Never _)))

-- In a configured environment, for a runner that emits events and has a notifier, `_process_file`
-- returns whatever fails inside it. The newest event is `file_done` with the status that the file
-- came to, and exactly where that is a permanent failure one notice of the quarantine has gone out,
-- and else none.
pub process_file_reports :
    (o : Outside) (r : Runner) (name : Text) (settings : NotifySettings) (w : World)
    → Configured r.env.name w.run
    → r.emit ≡ true
    → r.notifier ≡ some settings
    → let (res, w') = process_file o r name w in
      (status : Status) × (res ≡ ok status)
      × ((older : List Event) × (w'.events ≡ event r (file_done name status) ∷ older))
      × (w'.notices ≡ notices_after o r settings name status w.notices)
process_file_reports o r name settings w known emits has_notifier =
    let (status, done, (ended, told)) =
      Ensures-end (process_file-Reported o r name settings has_notifier w.notices emits) w
        (known, refl) in
    (status, done, told, ended.1)
