-- ===== src/Tree.antt =====
-- One environment's tree of folders on the shared file system, and `os.rename` on it.
pub mod Laws
pub mod Listing
pub mod Copies
pub mod InOrder
use native.Mathlib.Decide.{ℕ_discrete}
use pms_scanner.Prelude.{
  ℕ, Bool, true, false, ◌&&◌, Option, none, some, List, [], ◌∷◌, Text, codes, Eq, ◌==◌, contains,
  if◌then◌else◌, Exec, ok, raised, file_not_found, os_error,
}
use pms_scanner.Prelude.Dict
use pms_scanner.Prelude.Dict.{Dict}

-- `watch_dir`, `in_progress_dir(machine)`, `processed_dir` and `failed_dir` of an `Environment`.
pub data Folder : Type 0 where
  watch processed failed : Folder
  in_progress : Text → Folder

pub record FilePath : Type 0 where
  pub folder : Folder
  pub name : Text

folder_discrete : Discrete Folder
unfolding ℕ_discrete
folder_discrete = hlevel ℕ_discrete

path_discrete : Discrete FilePath
unfolding ℕ_discrete
path_discrete = hlevel ℕ_discrete

instance unfoldable pub folder_eq : Eq Folder
unfolding folder_discrete
folder_eq = record { dec = folder_discrete }

instance unfoldable pub path_eq : Eq FilePath
unfolding path_discrete
path_eq = record { dec = path_discrete }

pub record Node : Type 0 where
  pub is_file : Bool
  -- In milliseconds.
  pub mtime : ℕ
  pub bytes : Text

pub record Tree : Type 0 where
  pub folders : List Folder
  pub nodes : Dict FilePath Node

abbrev pub at : Folder → Text → FilePath
at folder name = record { folder = folder; name = name }

abbrev pub find : FilePath → Tree → Option Node
find p t = Dict.lookup p t.nodes

unfoldable pub names_in : Folder → Dict FilePath Node → List Text
names_in folder [] = []
names_in folder ((p, _) ∷ nodes) =
    let rest = names_in folder nodes in if p.folder == folder then p.name ∷ rest else rest

-- The names that `iterdir` lists.
unfoldable pub iterdir : Folder → Tree → List Text
unfolding names_in
iterdir folder t = names_in folder t.nodes

-- `Path.exists`, `Path.is_file`
abbrev pub exists : FilePath → Tree → Bool
exists p t = elim (find p t) [ none ↦ false | some _ ↦ true ]

abbrev pub is_file : FilePath → Tree → Bool
is_file p t = elim (find p t) [ none ↦ false | some node ↦ node.is_file ]

-- `mkdir(exist_ok=True)`
unfoldable pub mkdir : Folder → Tree → Tree
mkdir folder t = if contains t.folders folder then t else record t { folders = folder ∷ t.folders }

unfoldable pub relocated : FilePath → FilePath → Node → Tree → Tree
relocated src dst node t = record t { nodes = Dict.insert dst node (Dict.erase src t.nodes) }

-- A file may replace a file: whether the moved node and the one in its way are files, and the tree
-- if it may. `NotADirectoryError` is `file_not_found` here, for the code treats the two alike.
abbrev pub replace : Bool → Bool → Tree → Exec Tree (Unit {0})
replace true true moved t = (ok tt, moved)
replace true false moved t = (raised (os_error (codes "Is a directory")), t)
replace false true moved t = (raised file_not_found, t)
replace false false moved t = (raised (os_error (codes "Directory not empty")), t)

abbrev pub arrive : Bool → Option Node → Tree → Exec Tree (Unit {0})
arrive node_is_file none moved t = (ok tt, moved)
arrive node_is_file (some old) moved t = replace node_is_file old.is_file moved t

-- `os.rename`. What the system refuses for another reason, such as a permission, is `denied`.
unfoldable pub rename : (FilePath → FilePath → Bool) → FilePath → FilePath → Exec Tree (Unit {0})
rename denied src dst t =
    if denied src dst
    then (raised (os_error (codes "Permission denied")), t)
    else if contains t.folders dst.folder
    then elim (find src t) [
      | none ↦ (raised file_not_found, t)
      | some node ↦ arrive node.is_file (find dst t) (relocated src dst node t) t
    ]
    else (raised file_not_found, t)
