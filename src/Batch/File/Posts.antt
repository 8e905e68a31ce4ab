-- ===== src/Batch/File/Posts.antt =====
-- What `_process_file` leaves of the requests that were sent before, where the backend accepts
-- everything.
use pms_scanner.Prelude.{ℕ, Option-cases, inl, inr, Text, Listed, List, Result, ok, raised}
use pms_scanner.Uploader.{Request, Net}
use pms_scanner.Tree.{Folder}
use pms_scanner.Pdf.{PageImage}
use pms_scanner.Batch.Preserves.{Preserves, preserves_rules}
use pms_scanner.Batch.World.{Outside, Runner, Status}
use pms_scanner.Batch.World.Frame.{on_run-net, on_net-net, on_tree-net, fire-net, notify-net}
use pms_scanner.Batch.File.Loop.{Steady, load_pages-Preserves, process_pages-Preserves}
use pms_scanner.Batch.File.Accepted.{AllAccepted, upload_page-Grows}
use pms_scanner.Batch.File.{
  load_pages, process_pages, quarantine_notice, move, dispose, try_file, on_exception, swallow,
  handle, at_last, process_file, Flags,
}

module _ (o : Outside) (r : Runner) (all : AllAccepted o r) (q : Request) (name : Text) where
  abbrev S : Net → Type 0
  S n = Listed q n.posts

  steady : Steady o r (λ w. S w.net)
  steady = record {
    pages = λ n k. on_run-net S _;
    errors = λ n x. on_run-net S _;
    current = λ n page total. on_run-net S _;
    net = λ n page_num image.
        on_net-net S _ (record { at = λ u h. upload_page-Grows o r all n page_num image u q h });
    events = fire-net S r;
  }

  load_pages-kept : Preserves (λ w. S w.net) (load_pages o r name)
  load_pages-kept = load_pages-Preserves o r _ steady name

  process_pages-kept :
      (total : ℕ) (flags : Flags) (pages : List (PageImage o.imaging.Image))
      → Preserves (λ w. S w.net) (process_pages o r name total flags pages)
  process_pages-kept = process_pages-Preserves o r _ steady name

  quarantine_notice-kept : Preserves (λ w. S w.net) (quarantine_notice o r name)
  unfolding quarantine_notice
  quarantine_notice-kept = elim (Option-cases r.notifier) [
    | inl e ↦ rw e (search preserves_rules)
    | inr (settings, e) ↦ rw e (notify-net S _)
  ]

  move-kept : (folder : Folder) → Preserves (λ w. S w.net) (move o r name folder)
  unfolding move
  move-kept folder = on_tree-net S _

  dispose-kept : (flags : Flags) → Preserves (λ w. S w.net) (dispose o r name flags)
  unfolding dispose
  dispose-kept flags =
      search (preserves_rules, on_run-net S, move-kept, quarantine_notice-kept) depth 8

  try_file-kept : Preserves (λ w. S w.net) (try_file o r name)
  unfolding try_file
  try_file-kept =
      search (preserves_rules, load_pages-kept, on_run-net S, process_pages-kept, dispose-kept)
        depth 8

  swallow-kept : (res : Result (Unit {0})) → Preserves (λ w. S w.net) (swallow o r res)
  unfolding swallow
  swallow-kept res = search preserves_rules

  handle-kept : (res : Result Status) → Preserves (λ w. S w.net) (handle o r name res)
  unfolding on_exception
  handle-kept (ok status) = search preserves_rules
  handle-kept (raised exc) = search (preserves_rules, on_run-net S, move-kept, swallow-kept) depth 8

  at_last-kept : (res : Result Status) → Preserves (λ w. S w.net) (at_last o r name res)
  unfolding at_last
  at_last-kept res = search (preserves_rules, on_run-net S, fire-net S) depth 8

  -- A request that was sent stays on record, whatever becomes of the file.
  pub process_file-kept : Preserves (λ w. S w.net) (process_file o r name)
  unfolding process_file
  process_file-kept =
      search (preserves_rules, on_run-net S, fire-net S, try_file-kept, handle-kept, at_last-kept)
        depth 8
