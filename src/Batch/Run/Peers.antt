-- ===== src/Batch/Run/Peers.antt =====
-- `run_once` keeps out of the folders of other machines.
use mathlib.Core.Path.{subst}
use pms_scanner.Prelude.{◌≡◌, ◌≢◌, refl, sym, ap, ◌∙◌, Text}
use pms_scanner.Tree.{Tree, FilePath, watch, at, find, rename, path_eq}
use pms_scanner.Tree.Laws.{find-rename_other}
use pms_scanner.Batch.Preserves.{Preserves}
use pms_scanner.Batch.World.{Outside, Runner, World}
use pms_scanner.Batch.File.{in_self, process_file}
use pms_scanner.Batch.File.Places.{IsDestination, process_file_touches_only}
use pms_scanner.Batch.Run.{run_once}
use pms_scanner.Batch.Run.Keeps.{run_once-Preserves}

module _ (o : Outside) (r : Runner) (q : FilePath) (not_own : q.folder ≢ in_self o r)
    (elsewhere : ¬ IsDestination q.folder)
    (quiet_stat : (name : Text) (t : Tree) → find q (o.before_stat name t) ≡ find q t)
    (quiet_claim : (name : Text) (t : Tree) → find q (o.before_claim name t) ≡ find q t)
    (w0 : World) where
  abbrev Same : Tree → Type 0
  Same t = find q t ≡ find q w0.tree

  claims-Same :
      (name : Text) (t : Tree)
      → Same t
      → Same (rename o.denied (at watch name) (at (in_self o r) name) t).1
  claims-Same name t h =
      find-rename_other o.denied (at watch name) (at (in_self o r) name) t q
        (λ e. elsewhere (subst IsDestination (ap (λ (p : FilePath). p.folder) e) tt))
        (λ e. not_own (sym (ap (λ (p : FilePath). p.folder) e)))
      ∙ h

  process_file-Same : (name : Text) → Preserves (λ w. Same w.tree) (process_file o r name)
  process_file-Same name = record {
    at = λ w h.
        process_file_touches_only o r name w.tree w q refl
          (λ e. not_own (ap (λ (p : FilePath). p.folder) e)) (λ both. elsewhere both.0)
        ∙ h;
  }

  -- A pass over the watch folder, whatever it finds and whatever fails, leaves what another machine
  -- has claimed as it is, if what happens outside between its steps leaves it so: a path in a
  -- folder that is neither the machine's own nor a destination.
  pub run_once_spares_peers : find q (run_once o r w0).1.tree ≡ find q w0.tree
  run_once_spares_peers =
      (run_once-Preserves o r Same (λ name t h. quiet_stat name t ∙ h)
          (λ name t h. quiet_claim name t ∙ h) claims-Same process_file-Same).at
        w0 refl
