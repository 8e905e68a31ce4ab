-- ===== src/Batch/File/Kept.antt =====
-- What the parts of `_process_file` that move no file keep.
use mathlib.Core.Option
use pms_scanner.Prelude.{
  none, ℕ, ◌≡◌, refl, inl, inr, Bool, true, false, Option, some, Option-cases, List, Text, text_eq,
  ◌==◌, ==-refl, if◌then◌else◌, Exec,
}
use pms_scanner.Prelude.Dict
use pms_scanner.State.{
  PerEnvRunState, BatchRunState, ErrorRecord, change, add_pages_uploaded, add_files_processed,
  add_error, set_current, log_error, show_current,
}
use pms_scanner.State.Laws.{env_state, env_state-change, change-some}
use pms_scanner.Tree.{Tree, path_eq}
use pms_scanner.Uploader.{Net}
use pms_scanner.Pdf.{PageImage}
use pms_scanner.Batch.Preserves.{Preserves, preserves_rules}
use pms_scanner.Batch.Ensures.{Ensures}
use pms_scanner.Batch.World.{Outside, Runner, World, EventData, on_run, on_net, fire, on_tree}
use pms_scanner.Batch.World.Frame.{
  on_tree-tree, on_tree-run, on_run-tree, on_net-tree, fire-tree, notify-tree, on_run-run,
  on_net-run, fire-run, notify-run,
}
use pms_scanner.Batch.File.Loop.{Steady, load_pages-Preserves, process_pages-Preserves}
use pms_scanner.Batch.File.{load_pages, process_pages, quarantine_notice, Flags}

-- The environment is one of the configured ones.
abbrev pub Configured : Text → BatchRunState → Type 0
Configured e s = (st : PerEnvRunState) × (env_state e s ≡ some st)

module _ (e : Text) where
  applied :
      (f : PerEnvRunState → PerEnvRunState) (b : Bool) (old : Option PerEnvRunState)
      (st : PerEnvRunState)
      → old ≡ some st
      → (st' : PerEnvRunState) × ((if b then Option.map f old else old) ≡ some st')
  applied f true old st h = (f st, rw h refl)
  applied f false old st h = (st, h)

  pub change-Configured :
      (n : Text) (f : PerEnvRunState → PerEnvRunState) → Preserves (Configured e) (change n f)
  change-Configured n f = record {
    at = λ s h. rw env_state-change (applied f (n == e) (env_state e s) h.0 h.1);
  }

module _ (Q : Tree → Type 0) (e : Text) where
  -- A property of the tree, in a configured environment.
  abbrev pub Both : World → Type 0
  Both w = Configured e w.run × Q w.tree

  pub on_run-Both :
      {A : Type 0} (m : Exec BatchRunState A)
      → Preserves (Configured e) m
      → Preserves Both (on_run m)
  on_run-Both m k = record {
    at = λ w h. ((on_run-run (Configured e) m k).at w h.0, (on_run-tree Q m).at w h.1);
  }

  pub on_tree-Both : {A : Type 0} (m : Exec Tree A) → Preserves Q m → Preserves Both (on_tree m)
  on_tree-Both m k = record {
    at = λ w h. ((on_tree-run (Configured e) m).at w h.0, (on_tree-tree Q m k).at w h.1);
  }

  pub change-Both :
      (n : Text) (f : PerEnvRunState → PerEnvRunState) → Preserves Both (on_run (change n f))
  change-Both n f = on_run-Both _ (change-Configured e n f)

  pub add_pages-Both : (n : Text) (k : ℕ) → Preserves Both (on_run (add_pages_uploaded n k))
  unfolding add_pages_uploaded
  add_pages-Both n k = change-Both n _

  pub add_files-Both : (n : Text) (k : ℕ) → Preserves Both (on_run (add_files_processed n k))
  unfolding add_files_processed
  add_files-Both n k = change-Both n _

  pub add_error-Both : (n : Text) (x : ErrorRecord) → Preserves Both (on_run (add_error n x))
  unfolding add_error
  add_error-Both n x = change-Both n _

  pub set_current-Both :
      (n : Text) (file : Option Text) (page total : Option ℕ)
      → Preserves Both (on_run (set_current n file page total))
  unfolding set_current
  set_current-Both n file page total = change-Both n _

  on_net-Both : {A : Type 0} (m : Exec Net A) → Preserves Both (on_net m)
  on_net-Both m = record {
    at = λ w h. ((on_net-run (Configured e) m).at w h.0, (on_net-tree Q m).at w h.1);
  }

  pub fire-Both : (r : Runner) (x : EventData) → Preserves Both (fire r x)
  fire-Both r x = record {
    at = λ w h. ((fire-run (Configured e) r x).at w h.0, (fire-tree Q r x).at w h.1);
  }

  -- In a configured environment the methods of the run state raise nothing.
  module _ (R : World → Type 0) where
    pub change_sure :
        (f : PerEnvRunState → PerEnvRunState) → Ensures Both (λ u. Both) R (on_run (change e f))
    unfolding on_run
    change_sure f = record {
      at = λ w h.
          rw (change-some e f w.run h.0.0 h.0.1)
            ((f h.0.0, rw (Dict.lookup-insert, ==-refl e) refl), h.1);
    }

    pub add_error_sure : (x : ErrorRecord) → Ensures Both (λ u. Both) R (on_run (add_error e x))
    unfolding add_error
    add_error_sure x = change_sure (log_error x)

    pub set_current_sure :
        (file : Option Text) (page total : Option ℕ)
        → Ensures Both (λ u. Both) R (on_run (set_current e file page total))
    unfolding set_current
    set_current_sure file page total = change_sure (show_current file page total)

    pub fire_sure : (r : Runner) (x : EventData) → Ensures Both (λ u. Both) R (fire r x)
    unfolding fire
    fire_sure r x = record { at = λ w h. (fire-Both r x).at w h }

  steady : (o : Outside) (r : Runner) → Steady o r Both
  steady o r = record {
    pages = add_pages-Both;
    errors = add_error-Both;
    current = λ n page total. set_current-Both n none page total;
    net = λ n page_num image. on_net-Both _;
    events = fire-Both r;
  }

  module _ (o : Outside) (r : Runner) (name : Text) where
    pub load_pages-Both : Preserves Both (load_pages o r name)
    load_pages-Both = load_pages-Preserves o r Both (steady o r) name

    pub process_pages-Both :
        (total : ℕ) (flags : Flags) (pages : List (PageImage o.imaging.Image))
        → Preserves Both (process_pages o r name total flags pages)
    process_pages-Both = process_pages-Preserves o r Both (steady o r) name

    pub quarantine_notice-Both : Preserves Both (quarantine_notice o r name)
    unfolding quarantine_notice
    quarantine_notice-Both = elim (Option-cases r.notifier) [
      | inl p ↦ rw p (search preserves_rules)
      | inr (settings, p) ↦ rw p (record {
        at = λ w h. ((notify-run (Configured e) _).at w h.0, (notify-tree Q _).at w h.1);
      })
    ]
