-- ===== src/Batch/Run/Rounds.antt =====
-- A scan that waits, through the rounds of the loop for its own name.
use pms_scanner.Prelude.{
  ◌≡◌, refl, ◌∙◌, Bool, true, false, none, some, List, Text, text_eq, Exec, ok, ◌>>=◌,
}
use pms_scanner.Tree.{Tree, Node, FilePath, watch, processed, at, find, path_eq}
use pms_scanner.Tree.Laws.{find-relocated_other, find-relocated_dst, find-relocated_src}
use pms_scanner.Tree.InOrder.{CanMove-InOrder, rename_present, rename_missing}
use pms_scanner.Pdf.{PageImage, process_pdf}
use pms_scanner.Batch.Ensures.{
  Ensures, After, Never, Ensures-also, Ensures-bind, Ensures-pure, Ensures-weaken,
}
use pms_scanner.Batch.World.{Outside, Runner, World, on_tree}
use pms_scanner.Batch.File.{in_self, process_file}
use pms_scanner.Batch.File.Frees.{Open, process_file-Done}
use pms_scanner.Batch.File.Accepted.{AllAccepted, process_file_sends}
use pms_scanner.Batch.Run.{claim_file, process_if}
use pms_scanner.Batch.Run.Frees.{claimed-MayClaim, mine}
use pms_scanner.Batch.Run.Elsewhere.{Waits, Sent, With, claim}

module _ (o : Outside) (r : Runner) (allowed : (src dst : FilePath) → o.denied src dst ≡ false)
    (quiet : (n : Text) (t : Tree) → o.before_claim n t ≡ t) (all : AllAccepted o r) (name : Text)
    (node : Node) (pages : List (PageImage o.imaging.Image)) where
  abbrev S : World → Type 0
  S = Sent o r all name node pages

  -- The scan's own round, once it has been sent: the claim comes too late.
  Sent-claim :
      (w : World)
      → With r S w
      → (t : Tree) → t ≡ w.tree
      → After
          (λ claimed u. (claimed ≡ false) × With r S u)
          Never
          (claim_file o r name t).0
          (record w { tree = (claim_file o r name t).1 })
  unfolding claim_file
  Sent-claim w ((known, (order, none_left)), ((gone, there), posted)) t same = rw same (
      rw
        (rename_missing (at watch name) (at (in_self o r) name) w.tree _ o.denied order
          (allowed _ _) (mine o r) gone)
        (refl, ((known, (order, none_left)), ((gone, there), posted))))

  -- The scan's own round, while it waits: the claim takes it.
  abbrev pub Taken : World → Type 0
  Taken w =
      Open r name w
      × ((find (at (in_self o r) name) w.tree ≡ some node) × (find (at watch name) w.tree ≡ none))

  waiting_claim :
      (w : World)
      → With r (Waits name node) w
      → (t : Tree) → t ≡ w.tree
      → After
          (λ claimed u. (claimed ≡ true) × Taken u)
          Never
          (claim_file o r name t).0
          (record w { tree = (claim_file o r name t).1 })
  unfolding claim_file
  waiting_claim w ((known, (order, none_left)), here) t same = rw same (
      rw
        (rename_present (at watch name) (at (in_self o r) name) w.tree _ o.denied order
          (allowed _ _) (mine o r) node here)
        (
          refl,
          (
            (known, claimed-MayClaim o r name node w.tree (order, none_left) here),
            (
              find-relocated_dst (at watch name) (at (in_self o r) name) node w.tree,
              find-relocated_src (at watch name) (at (in_self o r) name) node w.tree (λ e. cc),
            ),
          ),
        ))

  pub Sent-round :
      (rest : Exec World (Unit {0})) (Q : Unit {0} → World → Type 0)
      → Ensures (With r S) Q Never rest
      → Ensures
          (With r S)
          Q
          Never
          (claim o r name >>= λ claimed. process_if o r claimed name >>= λ _. rest)
  unfolding on_tree
  Sent-round rest Q k =
      Ensures-bind
        (record { at = λ w h. Sent-claim w h (o.before_claim name w.tree) (quiet name w.tree) })
        late
    where
      late :
          (claimed : Bool)
          → Ensures
              (λ u. (claimed ≡ false) × With r S u)
              Q
              Never
              (process_if o r claimed name >>= λ _. rest)
      late true = record { at = λ w h. cc }
      late false =
          Ensures-bind (Ensures-weaken (λ w h. h.1) (λ a w h. h) (λ w h. h) (Ensures-pure _))
            (λ _. k)

  module _ (loaded : process_pdf o.imaging name node.bytes ≡ ok pages) where
    Taken-file : (w : World) → Taken w → S (process_file o r name w).1
    Taken-file w (((st, known), (order, only)), (here, gone)) =
        let (moved, posted) =
          process_file_sends o r all name w node st here loaded
            (CanMove-InOrder _ _ node w.tree r.machine.name o.denied order (allowed _ _) (λ k e. cc)
              here)
            known in
        (
          rw moved (
            find-relocated_other (at (in_self o r) name) (at processed name) (at watch name) node
                  w.tree (λ e. cc) (λ e. cc)
                ∙ gone,
            find-relocated_dst (at (in_self o r) name) (at processed name) node w.tree,
          ),
          posted,
        )

    pub waiting_round :
        (rest : Exec World (Unit {0})) (Q : Unit {0} → World → Type 0)
        → Ensures (With r S) Q Never rest
        → Ensures
            (With r (Waits name node))
            Q
            Never
            (claim o r name >>= λ claimed. process_if o r claimed name >>= λ _. rest)
    unfolding on_tree
    waiting_round rest Q k =
        Ensures-bind
          (record {
            at = λ w h. waiting_claim w h (o.before_claim name w.tree) (quiet name w.tree);
          })
          mine_now
      where
        mine_now :
            (claimed : Bool)
            → Ensures
                (λ u. (claimed ≡ true) × Taken u)
                Q
                Never
                (process_if o r claimed name >>= λ _. rest)
        mine_now true =
            Ensures-bind
              (Ensures-bind
                (Ensures-also S (process_file-Done o r name allowed) (λ w h. h.1.0)
                  (λ w h. Taken-file w h.1))
                (λ status. Ensures-pure {Q = λ a. With r S} tt))
              (λ _. k)
        mine_now false = record { at = λ w h. cc }
