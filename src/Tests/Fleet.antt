-- ===== src/Tests/Fleet.antt =====
-- The theorems about machines that share a tree, at concrete data.
use mathlib.Core.Path.{subst}
use mathlib.Core.Option.{some-injective}
use pms_scanner.Prelude.{
  ◌≤◌, ◌≡◌, refl, arith, inl, inr, Option-cases, Bool, true, false, none, some, ◌∷◌, Text, codes,
  text_eq, nat_eq, ok, ◌==◌,
}
use pms_scanner.Prelude.Dict
use pms_scanner.Tree.{
  Tree, Node, FilePath, watch, in_progress, at, find, relocated, folder_eq, path_eq,
}
use pms_scanner.Tree.Laws.{CanMove}
use pms_scanner.Tree.Copies.{copies}
use pms_scanner.Batch.World.{Outside, World}
use pms_scanner.Batch.File.{in_self}
use pms_scanner.Batch.Run.{claim_file, run_once, ensure_dirs, recover_stranded}
use pms_scanner.Batch.Run.Overlap.{second_claim_loses}
use pms_scanner.Fleet.{claims, Trace, Others, idle, machine}
use pms_scanner.Fleet.Refines.{batch_runner_refines}
use pms_scanner.Fleet.Single.{AtOnePath, scan_is_single}
use pms_scanner.Tests.{
  outside, claimed, mac, scan, scan_node, claimed_tree, all_folders, waiting_tree,
}

-- Another machine claims whatever waits.
abbrev snatched : Text → Tree → Tree
snatched name t = elim (find (at watch name) t) [
  | none ↦ t
  | some node ↦ relocated (at watch name) (at (in_progress (codes "mini")) name) node t
]

abbrev raced : Outside
raced = record outside { before_claim = snatched }

abbrev is_copy : Node → Bool
is_copy node = node.mtime == 5

snatched_by : (name : Text) (t : Tree) → Others is_copy t (snatched name t)
snatched_by name t = elim (Option-cases (find (at watch name) t)) [
  | inl e ↦ rw (e, snatched) idle
  | inr (node, e) ↦ rw (e, snatched) (machine idle (codes "mini") (claims name node e refl))
]

abbrev waiting_world : World
waiting_world = record claimed { tree = waiting_tree }

batch_runner_refines_example :
    Trace (codes "mac") (Others is_copy) waiting_tree (ensure_dirs (codes "mac") waiting_tree)
    × Trace
        (codes "mac")
        (Others is_copy)
        waiting_tree
        (recover_stranded raced mac 0 waiting_tree).1
    × Trace (codes "mac") (Others is_copy) waiting_tree (run_once raced mac waiting_world).1.tree
batch_runner_refines_example =
    batch_runner_refines raced mac (Others is_copy) 0 waiting_world (λ name t. idle) snatched_by

one_copy : copies is_copy waiting_tree.nodes ≤ 1
unfolding copies nat_eq
one_copy = omega arith

is_one : is_copy scan_node ≡ true
unfolding nat_eq
is_one = refl

scan_is_single_example :
    ((u : Tree) → Trace (codes "mac") (Others is_copy) waiting_world.tree u → AtOnePath is_copy u)
    × AtOnePath is_copy (run_once raced mac waiting_world).1.tree
scan_is_single_example =
    scan_is_single is_copy raced mac waiting_world (λ name t. idle) snatched_by one_copy

abbrev newer : Node
newer = record scan_node { mtime = 9 }

abbrev both_tree : Tree
both_tree = record { folders = all_folders; nodes = (at watch scan, newer) ∷ claimed_tree.nodes }

one_older : copies is_copy both_tree.nodes ≤ 1
unfolding copies nat_eq
one_older = omega arith

not_newer : is_copy newer ≡ false
unfolding nat_eq
not_newer = refl

claimed_first : find (at (in_self outside mac) scan) both_tree ≡ some scan_node
unfolding Dict.lookup path_eq
claimed_first = refl

no_folder_there :
    (old : Node) → find (at (in_self outside mac) scan) both_tree ≡ some old → old.is_file ≡ true
unfolding Dict.lookup path_eq
no_folder_there old h = subst (λ (n : Node). n.is_file ≡ true) (some-injective _ _ h) refl

can_claim : CanMove outside.denied (at watch scan) (at (in_self outside mac) scan) newer both_tree
unfolding Dict.lookup path_eq folder_eq
can_claim = record {
  allowed = refl;
  folder = refl;
  here = refl;
  node_file = refl;
  no_folder = no_folder_there;
}

second_claim_loses_example :
    let (mine, t') = claim_file outside mac scan both_tree in
    (mine ≡ ok true) × ((p : FilePath) (z : Node) → find p t' ≡ some z → is_copy z ≡ false)
second_claim_loses_example =
    second_claim_loses outside mac scan both_tree scan_node newer is_copy one_older is_one not_newer
      claimed_first can_claim
