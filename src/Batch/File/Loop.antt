-- ===== src/Batch/File/Loop.antt =====
-- scanner/batch.py: what the loop over the pages keeps, where its steps do.
use pms_scanner.Prelude.{ℕ, ◌≡◌, inl, inr, Option, Option-cases, none, List, [], ◌∷◌, Text}
use pms_scanner.State.{ErrorRecord, add_pages_uploaded, add_error, set_current}
use pms_scanner.Uploader.{UploadOutcome, accepted, rejected, failed}
use pms_scanner.Tree.{at, find}
use pms_scanner.Pdf.{PageImage}
use pms_scanner.Batch.Preserves.{Preserves, Preserves-bind, preserves_rules}
use pms_scanner.Batch.World.{Outside, Runner, World, EventData, on_run, on_net, fire}
use pms_scanner.Batch.Page.{upload_page_with_downsample}
use pms_scanner.Batch.File.{in_self, load_pages, note_outcome, process_page, process_pages, Flags}

-- `C` outlives the steps of the loop: the counters, the errors, the current page, the uploads and
-- the events.
pub record Steady (o : Outside) (r : Runner) (C : World → Type 0) : Type 0 where
  pub pages : (n : Text) (k : ℕ) → Preserves C (on_run (add_pages_uploaded n k))
  pub errors : (n : Text) (x : ErrorRecord) → Preserves C (on_run (add_error n x))
  pub current :
      (n : Text) (page total : Option ℕ) → Preserves C (on_run (set_current n none page total))
  pub net :
      (n : Text) (page_num : ℕ) (image : o.imaging.Image)
      → Preserves C (on_net (upload_page_with_downsample o r n page_num image))
  pub events : (x : EventData) → Preserves C (fire r x)

module _ (o : Outside) (r : Runner) (name : Text) where
  pub load_pages_pure : (w : World) → (load_pages o r name w).1 ≡ w
  unfolding load_pages
  load_pages_pure w = elim (Option-cases (find (at (in_self o r) name) w.tree)) [
    | inl e ↦ rw (e, load_pages)
    | inr (node, e) ↦ rw (e, load_pages)
  ]

module _ (o : Outside) (r : Runner) (C : World → Type 0) (steady : Steady o r C) (name : Text) where
  pub load_pages-Preserves : Preserves C (load_pages o r name)
  load_pages-Preserves = record { at = λ w h. rw load_pages_pure h }

  note_outcome-Preserves :
      (page_num : ℕ) (u : UploadOutcome) → Preserves C (note_outcome o r name page_num u)
  unfolding note_outcome
  note_outcome-Preserves page_num accepted = steady.pages _ _
  note_outcome-Preserves page_num rejected = search (preserves_rules, steady.errors)
  note_outcome-Preserves page_num failed = search (preserves_rules, steady.errors)

  process_page-Preserves :
      (total : ℕ) (flags : Flags) (page : PageImage o.imaging.Image)
      → Preserves C (process_page o r name total flags page)
  unfolding process_page
  process_page-Preserves total flags page =
      search (preserves_rules, steady.net, steady.current, steady.events, note_outcome-Preserves)
        depth 8

  pub process_pages-Preserves :
      (total : ℕ) (flags : Flags) (pages : List (PageImage o.imaging.Image))
      → Preserves C (process_pages o r name total flags pages)
  unfolding process_pages
  process_pages-Preserves total flags [] = search preserves_rules
  process_pages-Preserves total flags (page ∷ pages) =
      Preserves-bind _ _ (process_page-Preserves total flags page)
        (λ flags'. process_pages-Preserves total flags' pages)
