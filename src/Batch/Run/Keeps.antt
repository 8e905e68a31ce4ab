-- ===== src/Batch/Run/Keeps.antt =====
-- What a pass over the watch folder keeps, where its steps and those of the others in between do.
use pms_scanner.Prelude.{
  ℕ, Bool, true, false, ◌&&◌, Option, none, some, List, [], ◌∷◌, Text, if◌then◌else◌, Result, ok,
  raised, file_not_found,
}
use pms_scanner.FileName.{is_supported}
use pms_scanner.Tree.{Tree, Node, watch, at, find, is_file, rename}
use pms_scanner.Batch.Preserves.{Preserves, Preserves-bind, Preserves-pure, preserves_rules}
use pms_scanner.Batch.World.{Outside, Runner}
use pms_scanner.Batch.World.Frame.{on_run-tree, on_tree-tree, fire-tree}
use pms_scanner.Batch.File.{in_self, process_file}
use pms_scanner.Batch.Run.{
  is_settled, claim_file, examine, find_settled, process_if, run_files, run_once,
}

module _ (o : Outside) (r : Runner) (P : Tree → Type 0)
    (before_stat : (name : Text) (t : Tree) → P t → P (o.before_stat name t)) where
  examined :
      (time : ℕ) (t u : Tree) (test : Bool) (found : Option Node)
      → P t
      → P u
      → let rest : Result Bool × Tree =
          if test
          then elim found [
            | none ↦ (raised file_not_found, u)
            | some node ↦ (ok (is_settled o r time node.mtime), u)
          ]
          else (ok false, t) in
        P rest.1
  examined time t u true none h k = k
  examined time t u true (some node) h k = k
  examined time t u false found h k = h

  examine-Preserves : (time : ℕ) (name : Text) → Preserves P (examine o r time name)
  unfolding examine
  examine-Preserves time name = record {
    at = λ t h.
        examined time t (o.before_stat name t) (is_file (at watch name) t && is_supported name)
          (find (at watch name) (o.before_stat name t)) h (before_stat name t h);
  }

  pub find_settled-Preserves :
      (time : ℕ) (names : List Text) → Preserves P (find_settled o r time names)
  unfolding find_settled
  find_settled-Preserves time [] = Preserves-pure _
  find_settled-Preserves time (name ∷ names) =
      Preserves-bind _ _ (examine-Preserves time name) (λ settled.
        Preserves-bind _ _ (find_settled-Preserves time names) (λ rest. Preserves-pure _))

  module _ (before_claim : (name : Text) (t : Tree) → P t → P (o.before_claim name t))
      (claims : (name : Text) (t : Tree)
        → P t
        → P (rename o.denied (at watch name) (at (in_self o r) name) t).1)
      (file : (name : Text) → Preserves (λ w. P w.tree) (process_file o r name)) where
    claim-Preserves : (name : Text) → Preserves P (λ t. claim_file o r name (o.before_claim name t))
    unfolding claim_file
    claim-Preserves name = record {
      at = λ t h. claims name (o.before_claim name t) (before_claim name t h);
    }

    process_if-Preserves :
        (claimed : Bool) (name : Text) → Preserves (λ w. P w.tree) (process_if o r claimed name)
    process_if-Preserves true name = Preserves-bind _ _ (file name) (λ status. Preserves-pure _)
    process_if-Preserves false name = Preserves-pure _

    run_files-Preserves : (names : List Text) → Preserves (λ w. P w.tree) (run_files o r names)
    unfolding run_files
    run_files-Preserves [] = Preserves-pure _
    run_files-Preserves (name ∷ names) =
        Preserves-bind _ _ (on_tree-tree P _ (claim-Preserves name)) (λ claimed.
          Preserves-bind _ _ (process_if-Preserves claimed name)
            (λ done. run_files-Preserves names))

    pub run_once-Preserves : Preserves (λ w. P w.tree) (run_once o r)
    unfolding run_once
    run_once-Preserves =
        search
          (
            preserves_rules,
            on_run-tree P,
            on_tree-tree P,
            fire-tree P,
            find_settled-Preserves,
            run_files-Preserves,
          )
          depth 14
