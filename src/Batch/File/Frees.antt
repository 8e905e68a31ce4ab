-- ===== src/Batch/File/Frees.antt =====
-- `_process_file` gives up every claim, in a tree where no rename fails.
use pms_scanner.Prelude.{
  ◌≡◌, ◌≢◌, sym, ap, inl, inr, Bool, false, none, some, Option-cases, Bool-cases, Text, text_eq,
  ◌==◌, ==-true, ==-false, arith, ok, Fault,
}
use pms_scanner.Tree.{
  Tree, Node, FilePath, Folder, watch, processed, in_progress, at, find, rename, relocated, path_eq,
}
use pms_scanner.Tree.Laws.{rename-CanMove, rename_absent, find-relocated}
use pms_scanner.Tree.InOrder.{InOrder, Unclaimed, OnlyClaim, relocated-InOrder, CanMove-InOrder}
use pms_scanner.Batch.Ensures.{
  Ensures, Ensures-pure, Ensures-lift, Ensures-Never, Never, Ensures-kept, Ensures-moved,
  Ensures-weaken, Ensures-reading, Ensures-if, Ensures-bind, Ensures-handling,
}
use pms_scanner.Batch.World.{Outside, Runner, World, Status, file_started, on_tree}
use pms_scanner.Batch.File.Places.{IsDestination, find-gone}
use pms_scanner.Batch.File.Kept.{
  Both, add_files-Both, set_current-Both, add_error_sure, set_current_sure, fire_sure,
  load_pages-Both, process_pages-Both, quarantine_notice-Both,
}
use pms_scanner.Batch.File.{
  move, dispose, try_file, on_exception, swallow, handle, at_last, process_file, Flags,
}

no_claim : (folder : Folder) → IsDestination folder → (k : Text) → folder ≢ in_progress k
no_claim watch d k e = cc
no_claim processed d k e = cc
no_claim Folder.failed d k e = cc
no_claim (in_progress j) d k e = absurd d

-- The trees in which a machine has nothing claimed.
abbrev pub Free : Text → Tree → Type 0
Free m t = InOrder m t × Unclaimed m t

module _ (m name : Text) where
  -- The trees before a file is given up.
  abbrev pub MayClaim : Tree → Type 0
  MayClaim t = InOrder m t × OnlyClaim m name t

  pub still-Free : (t : Tree) → Free m t → MayClaim t
  still-Free t (order, none_left) = (order, λ n differs. none_left n)

  relocated-Free :
      (folder : Folder) (node : Node) (t : Tree)
      → IsDestination folder
      → MayClaim t
      → find (at (in_progress m) name) t ≡ some node
      → Free m (relocated (at (in_progress m) name) (at folder name) node t)
  relocated-Free folder node t d (order, only) here = (
    relocated-InOrder _ _ node t m order here,
    λ n. elim (Bool-cases (n == name)) [
      | inl same ↦ rw (==-true n name same) (find-gone m name folder node t d)
      | inr other ↦
          rw
            (
              find-relocated (at (in_progress m) name) (at folder name) (at (in_progress m) n) node
                  t,
              ==-false (at folder name) (at (in_progress m) n)
                  (λ e. no_claim folder d m (ap (λ (p : FilePath). p.folder) e)),
              ==-false (at (in_progress m) name) (at (in_progress m) n)
                  (λ e. differs n other (sym (ap (λ (p : FilePath). p.name) e))),
            )
            (only n (differs n other))
    ],
  )
    where
      differs : (n : Text) → (n == name) ≡ false → n ≢ name
      differs n h e = ground arith

  rename-Free :
      (denied : FilePath → FilePath → Bool) (folder : Folder) (t : Tree)
      → IsDestination folder
      → ((src dst : FilePath) → denied src dst ≡ false)
      → MayClaim t
      → Free m (rename denied (at (in_progress m) name) (at folder name) t).1
  rename-Free denied folder t d allowed (order, only) =
      elim (Option-cases (find (at (in_progress m) name) t)) [
        | inl e ↦ rw (rename_absent denied _ (at folder name) t e) (
          order,
          λ n. elim (Bool-cases (n == name)) [
            | inl same ↦ rw (==-true n name same) e
            | inr other ↦ only n (λ k. ground arith)
          ],
        )
        | inr (node, e) ↦
            rw
              (rename-CanMove denied (at (in_progress m) name) (at folder name) node t (
                CanMove-InOrder _ _ node t m denied order (allowed _ _)
                  (λ k c. absurd (no_claim folder d k c)) e))
              (relocated-Free folder node t d (order, only) e)
      ]

-- In a configured environment, the worlds where the machine has nothing claimed, and where it may
-- have claimed `name`.
abbrev pub Done : Runner → World → Type 0
Done r = Both (Free r.machine.name) r.env.name

abbrev pub Open : Runner → Text → World → Type 0
Open r name = Both (MayClaim r.machine.name name) r.env.name

module _ (o : Outside) (r : Runner) (name : Text)
    (allowed : (src dst : FilePath) → o.denied src dst ≡ false) where
  still-Done : (w : World) → Done r w → Open r name w
  still-Done w (known, free) = (known, still-Free r.machine.name name w.tree free)

  move-Done :
      (folder : Folder)
      → IsDestination folder
      → Ensures (Open r name) (λ u. Done r) (Done r) (move o r name folder)
  unfolding move on_tree
  move-Done folder d =
      Ensures-moved (Done r)
        (λ w h. (h.0, rename-Free r.machine.name name o.denied folder w.tree d allowed h.1))

  dispose-Done :
      (flags : Flags) → Ensures (Open r name) (λ status. Done r) (Done r) (dispose o r name flags)
  unfolding dispose
  dispose-Done flags =
      Ensures-if flags.all_ok _ _
        (Ensures-bind (move-Done processed tt) (λ _.
          Ensures-bind (Ensures-kept (Done r) (add_files-Both _ _ _ _)) (λ _. Ensures-pure _)))
        (Ensures-if flags.unrecoverable _ _
          (Ensures-bind (move-Done Folder.failed tt) (λ _.
            Ensures-bind (Ensures-kept (Done r) (quarantine_notice-Both _ _ o r name))
              (λ _. Ensures-pure _)))
          (Ensures-bind (move-Done watch tt) (λ _. Ensures-pure _)))

  try_file-Done : Ensures (Open r name) (λ status. Done r) (Open r name) (try_file o r name)
  unfolding try_file
  try_file-Done = Ensures-bind (Ensures-kept (Open r name) (load_pages-Both _ _ o r name)) (λ pages.
      Ensures-bind (Ensures-kept (Open r name) (set_current-Both _ _ _ _ _ _)) (λ _.
        Ensures-bind (Ensures-kept (Open r name) (process_pages-Both _ _ o r name _ _ pages))
          (λ flags. Ensures-weaken (λ w h. h) (λ status w h. h) still-Done (dispose-Done flags))))

  on_exception-Done :
      (exc : Fault) → Ensures (Open r name) (λ status. Done r) Never (on_exception o r name exc)
  unfolding on_exception swallow
  on_exception-Done exc = Ensures-bind (Ensures-reading _ (λ w. add_error_sure _ _ Never _)) (λ _.
      Ensures-bind
        (Ensures-handling (swallow o r) (move-Done watch tt) (λ _. Ensures-pure _)
          (λ e. Ensures-pure _))
        (λ _. Ensures-pure _))

  at_last-Done :
      (status : Status) → Ensures (Done r) (λ status. Done r) Never (at_last o r name (ok status))
  unfolding at_last
  at_last-Done status =
      Ensures-bind (set_current_sure _ _ Never none none none)
        (λ _. Ensures-bind (fire_sure _ _ Never r _) (λ _. Ensures-lift status))

  pub process_file-Done : Ensures (Open r name) (λ status. Done r) Never (process_file o r name)
  unfolding process_file
  process_file-Done = Ensures-bind (set_current_sure _ _ Never (some name) (some 0) none) (λ _.
      Ensures-bind (fire_sure _ _ Never r (file_started name)) (λ _.
        Ensures-handling (at_last o r name)
          (Ensures-handling (handle o r name) try_file-Done (λ status. Ensures-pure status)
            on_exception-Done)
          at_last-Done (λ exc. Ensures-Never _)))
