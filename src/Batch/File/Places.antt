-- ===== src/Batch/File/Places.antt =====
-- Where a claimed file can be after `_process_file`.
use mathlib.Core.Path.{subst}
use pms_scanner.Prelude.{
  ℕ, Option-cases, ap, ◌≡◌, refl, ◌∙◌, ◌≢◌, ◌⊎◌, sym, ==-false, inl, inr, none, some, List, Text,
  arith, Result, ok, raised,
}
use pms_scanner.Tree.{
  Tree, Node, Folder, watch, processed, in_progress, FilePath, at, find, rename, relocated, path_eq,
}
use pms_scanner.Tree.Laws.{stays, moves, rename-Moved, rename_absent, find-relocated}
use pms_scanner.Pdf.{PageImage}
use pms_scanner.Batch.Preserves.{Preserves, preserves_rules}
use pms_scanner.Batch.World.{Outside, Runner, World, Status}
use pms_scanner.Batch.World.Frame.{on_run-tree, on_net-tree, on_tree-tree, fire-tree, notify-tree}
use pms_scanner.Batch.File.Loop.{Steady, load_pages-Preserves, process_pages-Preserves}
use pms_scanner.Batch.File.{
  in_self, load_pages, process_pages, quarantine_notice, move, dispose, try_file, on_exception,
  swallow, handle, at_last, process_file, Flags,
}

-- The folders to which `_process_file` moves a file.
abbrev pub IsDestination : Folder → Type 0
IsDestination watch = Unit {0}
IsDestination processed = Unit {0}
IsDestination Folder.failed = Unit {0}
IsDestination (in_progress _) = ⊥

-- The tree is as it was, or the file has gone from the claim to one destination.
pub data Placed (self : Folder) (name : Text) (t t' : Tree) : Type 0 where
  still : t' ≡ t → Placed self name t t'
  put :
      (folder : Folder) (node : Node)
      → IsDestination folder
      → find (at self name) t ≡ some node
      → t' ≡ relocated (at self name) (at folder name) node t
      → Placed self name t t'

not_self :
    (m name : Text) (folder : Folder)
    → IsDestination folder
    → at folder name ≢ at (in_progress m) name
not_self m name watch d e = cc
not_self m name processed d e = cc
not_self m name Folder.failed d e = cc
not_self m name (in_progress k) d e = absurd d

pub find-gone :
    (m name : Text) (folder : Folder) (node : Node) (t : Tree)
    → IsDestination folder
    → find (at (in_progress m) name) (relocated (at (in_progress m) name) (at folder name) node t)
      ≡ none
find-gone m name folder node t d = rw find-relocated (ground (arith, not_self m name folder d))

module _ (o : Outside) (r : Runner) (name : Text) (t : Tree) where
  abbrev P : Tree → Type 0
  P = Placed (in_self o r) name t

  rename_step :
      (folder : Folder) (u : Tree)
      → IsDestination folder
      → P u
      → P (rename o.denied (at (in_self o r) name) (at folder name) u).1
  rename_step folder u d (still e) =
      elim (rename-Moved o.denied (at (in_self o r) name) (at folder name) u) [
        | stays _ _ same ↦ still (same ∙ e)
        | moves node here _ same ↦
            put folder node d (rw e at here)
              (same ∙ ap (relocated (at (in_self o r) name) (at folder name) node) e)
      ]
  rename_step folder u d (put f node df here e) =
      put f node df here
        (rename_absent o.denied _ _ u (rw e (find-gone r.machine.name name f node t df)) ∙ e)

  rename-Placed :
      (folder : Folder)
      → IsDestination folder
      → Preserves P (rename o.denied (at (in_self o r) name) (at folder name))
  rename-Placed folder d = record { at = λ u h. rename_step folder u d h }

  move-Placed :
      (folder : Folder) → IsDestination folder → Preserves (λ w. P w.tree) (move o r name folder)
  unfolding move
  move-Placed folder d = on_tree-tree P _ (rename-Placed folder d)

  move_watch : Preserves (λ w. P w.tree) (move o r name watch)
  move_watch = move-Placed watch tt

  move_processed : Preserves (λ w. P w.tree) (move o r name processed)
  move_processed = move-Placed processed tt

  move_failed : Preserves (λ w. P w.tree) (move o r name Folder.failed)
  move_failed = move-Placed Folder.failed tt

  steady : Steady o r (λ w. P w.tree)
  steady = record {
    pages = λ n k. on_run-tree P _;
    errors = λ n x. on_run-tree P _;
    current = λ n page total. on_run-tree P _;
    net = λ n page_num image. on_net-tree P _;
    events = fire-tree P r;
  }

  load_pages-Placed : Preserves (λ w. P w.tree) (load_pages o r name)
  load_pages-Placed = load_pages-Preserves o r _ steady name

  process_pages-Placed :
      (total : ℕ) (flags : Flags) (pages : List (PageImage o.imaging.Image))
      → Preserves (λ w. P w.tree) (process_pages o r name total flags pages)
  process_pages-Placed = process_pages-Preserves o r _ steady name

  quarantine_notice-Placed : Preserves (λ w. P w.tree) (quarantine_notice o r name)
  unfolding quarantine_notice
  quarantine_notice-Placed = elim (Option-cases r.notifier) [
    | inl e ↦ rw e (search preserves_rules)
    | inr (settings, e) ↦ rw e (notify-tree P _)
  ]

  dispose-Placed : (flags : Flags) → Preserves (λ w. P w.tree) (dispose o r name flags)
  unfolding dispose
  dispose-Placed flags =
      search
        (
          preserves_rules,
          on_run-tree P,
          move_watch,
          move_processed,
          move_failed,
          quarantine_notice-Placed,
        )
        depth 8

  try_file-Placed : Preserves (λ w. P w.tree) (try_file o r name)
  unfolding try_file
  try_file-Placed =
      search
        (preserves_rules, load_pages-Placed, on_run-tree P, process_pages-Placed, dispose-Placed)
        depth 8

  swallow-Placed : (res : Result (Unit {0})) → Preserves (λ w. P w.tree) (swallow o r res)
  unfolding swallow
  swallow-Placed res = search preserves_rules

  handle-Placed : (res : Result Status) → Preserves (λ w. P w.tree) (handle o r name res)
  unfolding on_exception
  handle-Placed (ok status) = search preserves_rules
  handle-Placed (raised exc) =
      search (preserves_rules, on_run-tree P, move_watch, swallow-Placed) depth 8

  at_last-Placed : (res : Result Status) → Preserves (λ w. P w.tree) (at_last o r name res)
  unfolding at_last
  at_last-Placed res = search (preserves_rules, on_run-tree P, fire-tree P) depth 8

  pub process_file-Placed : Preserves (λ w. P w.tree) (process_file o r name)
  unfolding process_file
  process_file-Placed =
      search
        (
          preserves_rules,
          on_run-tree P,
          fire-tree P,
          try_file-Placed,
          handle-Placed,
          at_last-Placed,
        )
        depth 8

  -- A claimed file is never lost: after `_process_file`, however the uploads, the renames and the
  -- exceptions fell out, the same file stands under its name in the claim or in one of the
  -- watch folder, `processed/` and `failed/`, and in the latter cases the claim is gone.
  pub process_file_keeps_file :
      (w : World) (node : Node)
      → w.tree ≡ t
      → find (at (in_self o r) name) t ≡ some node
      → let t' = (process_file o r name w).1.tree in
        (folder : Folder) × (find (at folder name) t' ≡ some node)
        × ((folder ≡ in_self o r)
            ⊎ (IsDestination folder × (find (at (in_self o r) name) t' ≡ none)))
  process_file_keeps_file w node e here = elim (process_file-Placed.at w (still e)) [
    | still same ↦ (in_self o r, rw same here, inl refl)
    | put folder moved d found same ↦ (
      folder,
      rw (same, find-relocated) (ground arith),
      inr (d, rw same (find-gone r.machine.name name folder moved t d)),
    )
  ]

  -- `_process_file` touches no path but the claim and the file's name in the watch folder,
  -- `processed/` and `failed/`: not another file, and nothing that another machine has claimed.
  pub process_file_touches_only :
      (w : World) (q : FilePath)
      → w.tree ≡ t
      → q ≢ at (in_self o r) name
      → ¬ (IsDestination q.folder × (q.name ≡ name))
      → find q (process_file o r name w).1.tree ≡ find q t
  process_file_touches_only w q e not_claim elsewhere = elim (process_file-Placed.at w (still e)) [
    | still same ↦ rw same
    | put folder moved d found same ↦ rw (
      same,
      find-relocated,
      ==-false (at folder name) q (λ p. elsewhere (
        subst (λ (x : FilePath). IsDestination x.folder) p d,
        sym (ap (λ (x : FilePath). x.name) p),
      )),
      ==-false (at (in_self o r) name) q (λ p. not_claim (sym p)),
    )
  ]
