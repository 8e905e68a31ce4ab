-- ===== src/Batch/Run/Claims.antt =====
-- `claim_file` among several machines: `os.rename` is one atomic step, so every interleaving of the
-- claims on a file is an order of these steps.
use pms_scanner.Prelude.{
  ℕ, ◌+◌, ◌≤◌, ◌≡◌, refl, ◌⊎◌, inl, inr, Bool, true, none, some, List, [], ◌∷◌, Text, arith, Result,
  ok, raised, Fault, ==-refl, ==-false,
}
use pms_scanner.Tree.{
  Tree, Node, watch, in_progress, at, find, rename, relocated, path_eq, folder_eq,
}
use pms_scanner.Tree.Laws.{stays, moves, rename-Moved, find-relocated, CanMove, rename-CanMove}
use pms_scanner.Batch.World.{Outside, Runner}
use pms_scanner.Batch.File.{in_self}
use pms_scanner.Batch.Run.{claim_file, lost_race}

abbrev won : Result Bool → ℕ
won (ok true) = 1
won _ = 0

module _ (o : Outside) (name : Text) where
  -- How many of the machines win the file, claiming it in this order, and the tree behind them.
  pub race : List Runner → Tree → ℕ × Tree
  race [] t = (0, t)
  race (r ∷ rs) t =
      let (claimed, t') = claim_file o r name t in
      let (others, t'') = race rs t' in (won claimed + others, t'')

  claim_absent :
      (r : Runner) (t : Tree)
      → find (at watch name) t ≡ none
      → (won (claim_file o r name t).0 ≡ 0) × ((claim_file o r name t).1 ≡ t)
  unfolding claim_file rename
  claim_absent r t h = ground arith

  race_absent : (rs : List Runner) (t : Tree) → find (at watch name) t ≡ none → race rs t ≡ (0, t)
  unfolding race
  race_absent [] t h = refl
  race_absent (r ∷ rs) t h =
      rw ((claim_absent r t h).1, (claim_absent r t h).0, race_absent rs t h) (ground arith)

  watch-claimed :
      (m : Text) (node : Node) (t : Tree)
      → find (at watch name) (relocated (at watch name) (at (in_progress m) name) node t) ≡ none
  watch-claimed m node t = rw (
    find-relocated,
    ==-false (at (in_progress m) name) (at watch name) (λ e. cc),
    ==-refl (at watch name),
  )

  claim-Moved :
      (r : Runner) (t : Tree)
      → ((won (claim_file o r name t).0 ≡ 0) × ((claim_file o r name t).1 ≡ t))
        ⊎ ((won (claim_file o r name t).0 ≡ 1)
            × (find (at watch name) (claim_file o r name t).1 ≡ none))
  unfolding claim_file
  claim-Moved r t = elim (rename-Moved o.denied (at watch name) (at (in_self o r) name) t) [
    | stays e failed same ↦ inl (rw failed (lost e), same)
    | moves node here done same ↦ inr (rw done, rw same (watch-claimed r.machine.name node t))
  ]
    where
      lost : (e : Fault) → won (lost_race (raised e)) ≡ 0
      lost e = ground arith

  -- However many machines claim a file, in whatever order, at most one of them wins it.
  pub claim_race : (rs : List Runner) (t : Tree) → (race rs t).0 ≤ 1
  unfolding race
  claim_race [] t = omega arith
  claim_race (r ∷ rs) t = elim (claim-Moved r t) [
    | inl (lost, same) ↦ rw (lost, same) (omega (arith, claim_race rs t))
    | inr (one, gone) ↦ rw (one, race_absent rs (claim_file o r name t).1 gone) (omega arith)
  ]

  -- A machine that the system lets claim a waiting file wins it, and whoever claims it afterwards
  -- loses: the file then stands in the winner's own folder, and no longer in the watch folder.
  pub claim_winner :
      (r : Runner) (rs : List Runner) (t : Tree) (node : Node)
      → CanMove o.denied (at watch name) (at (in_self o r) name) node t
      → let (winners, t') = race (r ∷ rs) t in
        (winners ≡ 1)
        × (find (at (in_self o r) name) t' ≡ some node)
        × (find (at watch name) t' ≡ none)
  unfolding race claim_file
  claim_winner r rs t node c =
      rw
        (
          rename-CanMove o.denied _ _ node t c,
          race_absent rs (relocated (at watch name) (at (in_self o r) name) node t)
              (watch-claimed r.machine.name node t),
        )
        (
          refl,
          rw (find-relocated, ==-refl (at (in_self o r) name)),
          watch-claimed r.machine.name node t,
        )
