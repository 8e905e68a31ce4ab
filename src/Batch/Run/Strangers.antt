-- ===== src/Batch/Run/Strangers.antt =====
-- `recover_stranded` keeps out of the folders of other machines.
use pms_scanner.Prelude.{ℕ, ◌≡◌, refl, sym, ◌∙◌, ◌≢◌, List, [], ◌∷◌, Text, ap}
use pms_scanner.Tree.{Tree, watch, FilePath, at, find, rename, folder_eq}
use pms_scanner.Tree.Laws.{find-rename_other}
use pms_scanner.Batch.Preserves.{Preserves, Preserves-bind, Preserves-pure, preserves_rules}
use pms_scanner.Batch.World.{Outside, Runner}
use pms_scanner.Batch.File.{in_self}
use pms_scanner.Batch.Run.{recover_one, recover_all, recover_stranded}

module _ (o : Outside) (r : Runner) (t : Tree) (q : FilePath) (not_own : q.folder ≢ in_self o r)
    (not_watch : q.folder ≢ watch) where
  abbrev Same : Tree → Type 0
  Same u = find q u ≡ find q t

  rename-Same :
      (name new : Text) → Preserves Same (rename o.denied (at (in_self o r) name) (at watch new))
  rename-Same name new = record {
    at = λ u h.
        find-rename_other o.denied (at (in_self o r) name) (at watch new) u q
          (λ e. not_own (sym (ap (λ (p : FilePath). p.folder) e)))
          (λ e. not_watch (sym (ap (λ (p : FilePath). p.folder) e)))
        ∙ h;
  }

  recover_one-Same : (clock : ℕ) (name : Text) → Preserves Same (recover_one o r clock name)
  unfolding recover_one
  recover_one-Same clock name = search (preserves_rules, rename-Same) depth 8

  recover_all-Same : (clock : ℕ) (names : List Text) → Preserves Same (recover_all o r clock names)
  unfolding recover_all
  recover_all-Same clock [] = search preserves_rules
  recover_all-Same clock (name ∷ names) =
      Preserves-bind _ _ (recover_one-Same clock name)
        (λ recovered. Preserves-bind _ _ (recover_all-Same clock names) (λ rest. Preserves-pure _))

  recover_stranded-Same : (clock : ℕ) → Preserves Same (recover_stranded o r clock)
  unfolding recover_stranded
  recover_stranded-Same clock = search (preserves_rules, recover_all-Same) depth 8

  -- `recover_stranded` changes nothing outside the machine's own folder and the watch folder: what
  -- another machine has claimed, and what is in `processed/` and `failed/`, stays as it is.
  pub recover_touches_only : (clock : ℕ) → find q (recover_stranded o r clock t).1 ≡ find q t
  recover_touches_only clock = (recover_stranded-Same clock).at t refl
