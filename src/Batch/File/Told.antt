-- ===== src/Batch/File/Told.antt =====
-- The notices, through the parts of `_process_file` that send none.
use pms_scanner.Prelude.{none, ℕ, ◌≡◌, refl, Option, List, Text, Exec, ==-refl, text_eq}
use pms_scanner.Prelude.Dict
use pms_scanner.State.{
  PerEnvRunState, BatchRunState, ErrorRecord, change, add_pages_uploaded, add_files_processed,
  add_error, set_current, show_current, log_error,
}
use pms_scanner.State.Laws.{change-some}
use pms_scanner.Uploader.{Net}
use pms_scanner.Tree.{Tree, Folder}
use pms_scanner.Pdf.{PageImage}
use pms_scanner.Notify.{Notice}
use pms_scanner.Batch.Preserves.{Preserves}
use pms_scanner.Batch.Ensures.{Ensures, Never}
use pms_scanner.Batch.World.{Outside, Runner, World, EventData, on_run, on_net, on_tree, fire}
use pms_scanner.Batch.File.Loop.{Steady, load_pages-Preserves, process_pages-Preserves}
use pms_scanner.Batch.File.Kept.{Configured, change-Configured}
use pms_scanner.Batch.File.{load_pages, process_pages, move, Flags}

-- In a configured environment, with these notices.
module _ (e : Text) (ns : List Notice) where
  abbrev pub Told : World → Type 0
  Told w = Configured e w.run × (w.notices ≡ ns)

  run-Told :
      {A : Type 0} (m : Exec BatchRunState A)
      → Preserves (Configured e) m
      → Preserves Told (on_run m)
  unfolding on_run
  run-Told m k = record { at = λ w h. (k.at w.run h.0, h.1) }

  change-Told :
      (n : Text) (f : PerEnvRunState → PerEnvRunState) → Preserves Told (on_run (change n f))
  change-Told n f = run-Told _ (change-Configured e n f)

  add_pages-Told : (n : Text) (k : ℕ) → Preserves Told (on_run (add_pages_uploaded n k))
  unfolding add_pages_uploaded
  add_pages-Told n k = change-Told n _

  pub add_files-Told : (n : Text) (k : ℕ) → Preserves Told (on_run (add_files_processed n k))
  unfolding add_files_processed
  add_files-Told n k = change-Told n _

  add_error-Told : (n : Text) (x : ErrorRecord) → Preserves Told (on_run (add_error n x))
  unfolding add_error
  add_error-Told n x = change-Told n _

  pub set_current-Told :
      (n : Text) (file : Option Text) (page total : Option ℕ)
      → Preserves Told (on_run (set_current n file page total))
  unfolding set_current
  set_current-Told n file page total = change-Told n _

  on_net-Told : {A : Type 0} (m : Exec Net A) → Preserves Told (on_net m)
  unfolding on_net
  on_net-Told m = record { at = λ w h. h }

  on_tree-Told : {A : Type 0} (m : Exec Tree A) → Preserves Told (on_tree m)
  unfolding on_tree
  on_tree-Told m = record { at = λ w h. h }

  fire-Told : (r : Runner) (x : EventData) → Preserves Told (fire r x)
  unfolding fire
  fire-Told r x = record { at = λ w h. h }

  steady : (o : Outside) (r : Runner) → Steady o r Told
  steady o r = record {
    pages = add_pages-Told;
    errors = add_error-Told;
    current = λ n page total. set_current-Told n none page total;
    net = λ n page_num image. on_net-Told _;
    events = fire-Told r;
  }

  -- The methods of the run state raise nothing.
  change_sure :
      (f : PerEnvRunState → PerEnvRunState) → Ensures Told (λ u. Told) Never (on_run (change e f))
  unfolding on_run
  change_sure f = record {
    at = λ w h.
        rw (change-some e f w.run h.0.0 h.0.1)
          ((f h.0.0, rw (Dict.lookup-insert, ==-refl e) refl), h.1);
  }

  pub add_error_sure : (x : ErrorRecord) → Ensures Told (λ u. Told) Never (on_run (add_error e x))
  unfolding add_error
  add_error_sure x = change_sure (log_error x)

  pub set_current_sure :
      (file : Option Text) (page total : Option ℕ)
      → Ensures Told (λ u. Told) Never (on_run (set_current e file page total))
  unfolding set_current
  set_current_sure file page total = change_sure (show_current file page total)

  pub fire_sure : (r : Runner) (x : EventData) → Ensures Told (λ u. Told) Never (fire r x)
  unfolding fire
  fire_sure r x = record { at = λ w h. h }

  module _ (o : Outside) (r : Runner) (name : Text) where
    pub load_pages-Told : Preserves Told (load_pages o r name)
    load_pages-Told = load_pages-Preserves o r Told (steady o r) name

    pub process_pages-Told :
        (total : ℕ) (flags : Flags) (pages : List (PageImage o.imaging.Image))
        → Preserves Told (process_pages o r name total flags pages)
    process_pages-Told = process_pages-Preserves o r Told (steady o r) name

    pub move-Told : (folder : Folder) → Preserves Told (move o r name folder)
    unfolding move
    move-Told folder = on_tree-Told _
