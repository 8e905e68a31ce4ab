-- ===== src/Fleet/Single.antt =====
-- No scan is ever in two places.
use pms_scanner.Prelude.{
  ◌≤◌, ◌≡◌, ◌≢◌, ap, inl, inr, Bool, true, false, some, Text, ◌==◌, ==-true, Bool-cases, arith,
}
use pms_scanner.Tree.{Tree, Node, FilePath, path_eq, find}
use pms_scanner.Tree.Copies.{copies, copies-insert, copies-relocated, copies-mkdir, copies-two}
use pms_scanner.Batch.World.{Outside, Runner, World}
use pms_scanner.Batch.Run.{run_once}
use pms_scanner.Fleet.{
  Move, claims, puts, gives_back, makes, Trace, here, own, out, Others, idle, machine, arrives,
}
use pms_scanner.Fleet.Refines.{batch_runner_refines}

module _ (tag : Node → Bool) where
  -- No step of a machine makes a copy.
  copies-Move : (m : Text) (t t' : Tree) → Move m t t' → copies tag t'.nodes ≤ copies tag t.nodes
  copies-Move m t t' (claims name node found e) = rw e (copies-relocated tag _ _ node t found)
  copies-Move m t t' (puts folder name node d found e) =
      rw e (copies-relocated tag _ _ node t found)
  copies-Move m t t' (gives_back name new node found e) =
      rw e (copies-relocated tag _ _ node t found)
  copies-Move m t t' (makes folder e) = rw e (copies-mkdir tag folder t)

  copies-Others : {t u : Tree} → Others tag t u → copies tag u.nodes ≤ copies tag t.nodes
  copies-Others idle = omega arith
  copies-Others (machine {u} {v} others k move) =
      omega (arith, copies-Others others, copies-Move k u v move)
  copies-Others (arrives {u} {v} others p node fresh e) = omega (
    arith,
    copies-Others others,
    rw fresh at (copies-insert tag p node u.nodes),
    ap (λ (t : Tree). copies tag t.nodes) e,
  )

  copies-Trace :
      (m : Text) {t u : Tree} → Trace m (Others tag) t u → copies tag u.nodes ≤ copies tag t.nodes
  copies-Trace m here = omega arith
  copies-Trace m (own {u} {v} trace move) =
      omega (arith, copies-Trace m trace, copies-Move m u v move)
  copies-Trace m (out trace others) = omega (arith, copies-Trace m trace, copies-Others others)

  -- Any two copies stand at one path.
  abbrev pub AtOnePath : Tree → Type 0
  AtOnePath t =
      (p q : FilePath) (x y : Node)
      → find p t ≡ some x
      → find q t ≡ some y
      → tag x ≡ true
      → tag y ≡ true
      → p ≡ q

  copies-AtOnePath : (t : Tree) → copies tag t.nodes ≤ 1 → AtOnePath t
  copies-AtOnePath t single p q x y hp hq tx ty = elim (Bool-cases (p == q)) [
    | inl same ↦ ==-true p q same
    | inr other ↦
        absurd (omega (arith, single, copies-two tag p q x y t.nodes (ne other) hp hq tx ty))
  ]
    where
      ne : (p == q) ≡ false → p ≢ q
      ne h e = ground arith

  -- A scan that stands in at most one place does so in every tree that any steps of a machine and
  -- any steps of the others, in any order, lead to, where the others may be all machines and scans
  -- that arrive, but no further copies of this one: it is never claimed by two machines, and never
  -- both claimed and waiting, or claimed and done. It does so in the tree that a pass of
  -- `BatchRunner` leaves, where the others act before the pass asks for the age of a file and
  -- before it claims one. `tag` tells which nodes are copies of the scan.
  pub scan_is_single :
      (o : Outside) (r : Runner) (w : World)
      → ((name : Text) (t : Tree) → Others tag t (o.before_stat name t))
      → ((name : Text) (t : Tree) → Others tag t (o.before_claim name t))
      → copies tag w.tree.nodes ≤ 1
      → ((u : Tree) → Trace r.machine.name (Others tag) w.tree u → AtOnePath u)
        × AtOnePath (run_once o r w).1.tree
  scan_is_single o r w before_stat before_claim single =
      let (_, _, pass) = batch_runner_refines o r (Others tag) 0 w before_stat before_claim in
      (reached, reached _ pass)
    where
      reached : (u : Tree) → Trace r.machine.name (Others tag) w.tree u → AtOnePath u
      reached u trace =
          copies-AtOnePath u (omega (arith, single, copies-Trace r.machine.name trace))
