-- ===== src/Batch/Run/Frees.antt =====
-- `run_once` leaves nothing claimed, in a tree where no rename fails.
use pms_scanner.Prelude.{
  ℕ, ◌≡◌, sym, ap, inl, inr, Bool, true, false, some, List, [], ◌∷◌, Text, ==-false, Option-cases,
  contains, Exec, Result, ok, raised,
}
use pms_scanner.State.{mark_run_started, mark_run_finished}
use pms_scanner.Tree.{
  Tree, Node, FilePath, watch, in_progress, at, find, relocated, path_eq, folder_eq,
}
use pms_scanner.Tree.Laws.{find-relocated}
use pms_scanner.Tree.InOrder.{relocated-InOrder, rename_present, rename_missing}
use pms_scanner.Batch.Preserves.{Preserves}
use pms_scanner.Batch.Ensures.{
  Ensures, After, Ensures-pure, Never, Ensures-kept, Ensures-weaken, Ensures-reading, Ensures-if,
  Ensures-bind,
}
use pms_scanner.Batch.World.{Outside, Runner, World, on_tree}
use pms_scanner.Batch.File.{in_self}
use pms_scanner.Batch.File.Kept.{Configured, change-Both, fire-Both, on_tree-Both}
use pms_scanner.Batch.File.Frees.{Free, MayClaim, Done, Open, process_file-Done}
use pms_scanner.Batch.Run.Keeps.{find_settled-Preserves}
use pms_scanner.Batch.Run.{claim_file, find_settled, process_if, run_files, run_once}

module _ (o : Outside) (r : Runner) where
  pub claimed-MayClaim :
      (name : Text) (node : Node) (t : Tree)
      → Free r.machine.name t
      → find (at watch name) t ≡ some node
      → MayClaim r.machine.name name (relocated (at watch name) (at (in_self o r) name) node t)
  claimed-MayClaim name node t (order, none_left) here = (
    relocated-InOrder _ _ node t r.machine.name order here,
    λ n differs.
        rw
          (
            find-relocated (at watch name) (at (in_self o r) name) (at (in_self o r) n) node t,
            ==-false (at (in_self o r) name) (at (in_self o r) n)
                (λ e. differs (sym (ap (λ (p : FilePath). p.name) e))),
            ==-false (at watch name) (at (in_self o r) n) (λ e. cc),
          )
          (none_left n),
  )

  -- What holds after a claim, by its result.
  abbrev pub Claimed : Text → Bool → World → Type 0
  Claimed name true w = Open r name w
  Claimed name false w = Done r w

  pub mine : (k : Text) → in_self o r ≡ in_progress k → k ≡ r.machine.name
  mine k e = cc

  module _ (allowed : (src dst : FilePath) → o.denied src dst ≡ false) where
    pub process_if-Done :
        (claimed : Bool) (name : Text)
        → Ensures (Claimed name claimed) (λ u. Done r) Never (process_if o r claimed name)
    process_if-Done true name =
        Ensures-bind (process_file-Done o r name allowed) (λ status. Ensures-pure _)
    process_if-Done false name = Ensures-pure _

    module _
        (before_claim : (name : Text) (t : Tree)
          → Free r.machine.name t
          → Free r.machine.name (o.before_claim name t)) where
      claim_step :
          (name : Text) (w : World)
          → Done r w
          → (t : Tree) → Free r.machine.name t
          → After
              (Claimed name)
              Never
              (claim_file o r name t).0
              (record w { tree = (claim_file o r name t).1 })
      unfolding claim_file
      claim_step name w h t (order, none_left) = elim (Option-cases (find (at watch name) t)) [
        | inl e ↦
            rw
              (rename_missing (at watch name) (at (in_self o r) name) t _ o.denied order
                (allowed _ _) mine e)
              (h.0, (order, none_left))
        | inr (node, e) ↦
            rw
              (rename_present (at watch name) (at (in_self o r) name) t _ o.denied order
                (allowed _ _) mine node e)
              (h.0, claimed-MayClaim name node t (order, none_left) e)
      ]

      pub claim-Claimed :
          (name : Text)
          → Ensures
              (Done r)
              (Claimed name)
              Never
              (on_tree (λ t. claim_file o r name (o.before_claim name t)))
      unfolding on_tree
      claim-Claimed name = record {
        at = λ w h. claim_step name w h (o.before_claim name w.tree) (before_claim name w.tree h.1);
      }

      pub run_files-Done :
          (names : List Text) → Ensures (Done r) (λ u. Done r) Never (run_files o r names)
      unfolding run_files
      run_files-Done [] = Ensures-pure _
      run_files-Done (name ∷ names) =
          Ensures-bind (claim-Claimed name)
            (λ claimed. Ensures-bind (process_if-Done claimed name) (λ done. run_files-Done names))

      module _
          (before_stat : (name : Text) (t : Tree)
            → Free r.machine.name t
            → Free r.machine.name (o.before_stat name t)) where
        pub run_once-Done : Ensures (Done r) (λ u. Done r) (Done r) (run_once o r)
        unfolding run_once mark_run_started mark_run_finished
        run_once-Done = Ensures-reading _ (λ w.
            Ensures-if (contains w.tree.folders watch) _ _
              (Ensures-bind (Ensures-reading _ (λ w. kept (change-Both _ _ _ _))) (λ _.
                Ensures-bind (kept (fire-Both _ _ r _)) (λ _.
                  Ensures-bind (Ensures-reading _ (λ w. kept (listing _ _))) (λ settled.
                    Ensures-bind (weaken (run_files-Done settled)) (λ _.
                      Ensures-bind (Ensures-reading _ (λ w. kept (change-Both _ _ _ _)))
                        (λ _. kept (fire-Both _ _ r _)))))))
              (Ensures-pure _))
          where
            kept :
                {A : Type 0} {m : Exec World A}
                → Preserves (Done r) m
                → Ensures (Done r) (λ a. Done r) (Done r) m
            kept = Ensures-kept (Done r)

            weaken :
                {m : Exec World (Unit {0})}
                → Ensures (Done r) (λ u. Done r) Never m
                → Ensures (Done r) (λ u. Done r) (Done r) m
            weaken k = Ensures-weaken (λ w h. h) (λ a w h. h) (λ w h. absurd h) k

            listing :
                (time : ℕ) (names : List Text)
                → Preserves (Done r) (on_tree (find_settled o r time names))
            listing time names =
                on_tree-Both (Free r.machine.name) r.env.name _
                  (find_settled-Preserves o r (Free r.machine.name) before_stat time names)

-- A machine leaves no file claimed: where the system refuses no rename between its folders, and the
-- environment is configured, a pass over the watch folder that starts with nothing claimed ends,
-- whether it returns or raises, with nothing claimed, the folders all there and only files in them.
-- What others do when the pass asks for an age and when it claims has to keep these three things.
pub run_once_frees :
    (o : Outside) (r : Runner) (w : World)
    → ((src dst : FilePath) → o.denied src dst ≡ false)
    → ((name : Text) (t : Tree)
        → Free r.machine.name t
        → Free r.machine.name (o.before_stat name t))
    → ((name : Text) (t : Tree)
        → Free r.machine.name t
        → Free r.machine.name (o.before_claim name t))
    → Configured r.env.name w.run
    → Free r.machine.name w.tree
    → Free r.machine.name (run_once o r w).1.tree
run_once_frees o r w allowed before_stat before_claim known free =
    (ended (run_once o r w).0 (run_once o r w).1
      ((run_once-Done o r allowed before_claim before_stat).at w (known, free))).1
  where
    ended : (res : Result (Unit {0})) (u : World) → After (λ a. Done r) (Done r) res u → Done r u
    ended (ok a) u h = h
    ended (raised e) u h = h
