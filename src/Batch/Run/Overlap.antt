-- ===== src/Batch/Run/Overlap.antt =====
-- `claim_file` where the machine's own folder already holds a file of that name: a run by hand
-- beside a scheduled one, or a claimed file that could not be moved on.
use pms_scanner.Prelude.{
  ◌≤◌, ◌≡◌, refl, ◌∙◌, inl, inr, Bool, true, false, some, Text, ==-false, Bool-cases, arith, ok,
}
use pms_scanner.Prelude.Dict
use pms_scanner.Prelude.Dict.{Dict}
use pms_scanner.Tree.{Tree, Node, FilePath, watch, path_eq, at, find, relocated}
use pms_scanner.Tree.Laws.{CanMove, rename-CanMove}
use pms_scanner.Batch.World.{Outside, Runner}
use pms_scanner.Batch.File.{in_self}
use pms_scanner.Batch.Run.{claim_file}
use pms_scanner.Tree.Copies.{copies, copies-insert_over, copies-erase_le, copies-lookup}

module _ (o : Outside) (r : Runner) (name : Text) (t : Tree) (x y : Node) (tag : Node → Bool) where
  claim_moves :
      CanMove o.denied (at watch name) (at (in_self o r) name) y t
      → claim_file o r name t ≡ (ok true, relocated (at watch name) (at (in_self o r) name) y t)
  unfolding claim_file
  claim_moves c = rw (rename-CanMove o.denied _ _ y t c) refl

  -- The older file is still in the way when the newer one arrives.
  in_the_way :
      find (at (in_self o r) name) t ≡ some x
      → Dict.lookup (at (in_self o r) name) (Dict.erase (at watch name) t.nodes) ≡ some x
  in_the_way h =
      Dict.lookup-erase (at watch name) (at (in_self o r) name) t.nodes
      ∙ rw (==-false (at watch name) (at (in_self o r) name) (λ e. cc)) h

  gone :
      copies tag t.nodes ≤ 1
      → tag x ≡ true
      → tag y ≡ false
      → find (at (in_self o r) name) t ≡ some x
      → copies tag (relocated (at watch name) (at (in_self o r) name) y t).nodes ≤ 0
  unfolding relocated
  gone single tx ty h = omega (
    arith,
    rw (tx, ty) at
        (copies-insert_over tag (at (in_self o r) name) y x (Dict.erase (at watch name) t.nodes)
          (in_the_way h)),
    copies-erase_le tag (at watch name) t.nodes,
  )

  -- A file that waits under the name of one that the machine has claimed already can be claimed by
  -- it again, where the system refuses nothing: the claim succeeds, and the scan that was claimed
  -- first, if there is one copy of it, stands nowhere any more. `tag` tells which nodes are copies.
  pub second_claim_loses :
      copies tag t.nodes ≤ 1
      → tag x ≡ true
      → tag y ≡ false
      → find (at (in_self o r) name) t ≡ some x
      → CanMove o.denied (at watch name) (at (in_self o r) name) y t
      → let (claimed, t') = claim_file o r name t in
        (claimed ≡ ok true) × ((p : FilePath) (z : Node) → find p t' ≡ some z → tag z ≡ false)
  second_claim_loses single tx ty h c = rw (claim_moves c) (
    refl,
    λ p z here. elim (Bool-cases (tag z)) [
      | inr f ↦ f
      | inl k ↦ absurd (omega (arith, gone single tx ty h, copies-lookup tag p z _ here k))
    ],
  )
