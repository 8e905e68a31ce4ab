-- ===== src/Fleet.antt =====
-- The fleet, seen from one environment's tree: what machines and operators do to it, step by step.
pub mod Refines
pub mod Single
use pms_scanner.Prelude.{◌≡◌, ◌≢◌, Bool, none, some, Text, Exec, Result}
use pms_scanner.Prelude.Dict
use pms_scanner.Tree.{
  Tree, Node, FilePath, Folder, watch, in_progress, at, find, mkdir, relocated, path_eq,
}
use pms_scanner.Batch.File.Places.{IsDestination}

-- One step of machine `m`: it claims a waiting file, moves a claimed one to its destination under
-- its name or back to the watch folder under some name, or makes a folder.
pub data Move (m : Text) (t t' : Tree) : Type 0 where
  claims :
      (name : Text) (node : Node)
      → find (at watch name) t ≡ some node
      → t' ≡ relocated (at watch name) (at (in_progress m) name) node t
      → Move m t t'
  puts :
      (folder : Folder) (name : Text) (node : Node)
      → IsDestination folder
      → find (at (in_progress m) name) t ≡ some node
      → t' ≡ relocated (at (in_progress m) name) (at folder name) node t
      → Move m t t'
  gives_back :
      (name new : Text) (node : Node)
      → find (at (in_progress m) name) t ≡ some node
      → t' ≡ relocated (at (in_progress m) name) (at watch new) node t
      → Move m t t'
  makes : (folder : Folder) → t' ≡ mkdir folder t → Move m t t'

-- Steps of machine `m`, between steps of others.
pub data Trace (m : Text) (Out : Tree → Tree → Type 0) (t : Tree) : Tree → Type 0 where
  here : Trace m Out t t
  own : {u v : Tree} → Trace m Out t u → Move m u v → Trace m Out t v
  out : {u v : Tree} → Trace m Out t u → Out u v → Trace m Out t v

-- What others do: any steps of any machines, and scans that arrive. `tag` tells which nodes are
-- copies of some scan; those that arrive are none.
pub data Others (tag : Node → Bool) (t : Tree) : Tree → Type 0 where
  idle : Others tag t t
  machine : {u v : Tree} → Others tag t u → (k : Text) → Move k u v → Others tag t v
  arrives :
      {u v : Tree}
      → Others tag t u
      → (p : FilePath) (node : Node) → tag node ≡ Bool.false
      → v ≡ record u { nodes = Dict.insert p node u.nodes }
      → Others tag t v
