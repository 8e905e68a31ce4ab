-- ===== src/Tree/Laws.antt =====
-- What a rename does to a tree.
use pms_scanner.Prelude.{
  ◌≡◌, refl, ◌≢◌, inl, inr, Bool, true, false, Option, none, some, arith, ok, raised, Fault, Result,
  ◌==◌, ==-refl, ==-false, ◌∙◌, if◌then◌else◌, contains, Bool-cases, Option-cases,
}
use pms_scanner.Prelude.Dict
use pms_scanner.Tree.{
  FilePath, Node, Tree, find, path_eq, folder_eq, rename, replace, arrive, relocated,
}

pub find-relocated :
    (src dst q : FilePath) (node : Node) (t : Tree)
    → find q (relocated src dst node t)
      ≡ (if dst == q then some node else if src == q then none else find q t)
unfolding relocated
find-relocated src dst q node t =
    rw (Dict.lookup-insert dst q node (Dict.erase src t.nodes), Dict.lookup-erase src q t.nodes)

pub find-relocated_dst :
    (src dst : FilePath) (node : Node) (t : Tree) → find dst (relocated src dst node t) ≡ some node
find-relocated_dst src dst node t = find-relocated src dst dst node t ∙ rw (==-refl dst) refl

pub find-relocated_src :
    (src dst : FilePath) (node : Node) (t : Tree)
    → dst ≢ src
    → find src (relocated src dst node t) ≡ none
find-relocated_src src dst node t differ =
    find-relocated src dst src node t ∙ rw (==-false dst src differ, ==-refl src) refl

pub find-relocated_other :
    (src dst q : FilePath) (node : Node) (t : Tree)
    → src ≢ q
    → dst ≢ q
    → find q (relocated src dst node t) ≡ find q t
find-relocated_other src dst q node t hs hd =
    find-relocated src dst q node t ∙ rw (==-false dst q hd, ==-false src q hs) refl

-- A rename fails and changes nothing, or it moves the node.
pub data Moved (src dst : FilePath) (t : Tree) (r : Result (Unit {0})) (t' : Tree) : Type 0 where
  stays : (e : Fault) → r ≡ raised e → t' ≡ t → Moved src dst t r t'
  moves :
      (node : Node)
      → find src t ≡ some node
      → r ≡ ok tt
      → t' ≡ relocated src dst node t
      → Moved src dst t r t'

module _ (denied : FilePath → FilePath → Bool) (src dst : FilePath) (t : Tree) where
  replace-Moved :
      (a b : Bool) (node : Node)
      → find src t ≡ some node
      → let (r, t') = replace a b (relocated src dst node t) t in Moved src dst t r t'
  replace-Moved true true node h = moves node h refl refl
  replace-Moved true false node h = stays _ refl refl
  replace-Moved false true node h = stays _ refl refl
  replace-Moved false false node h = stays _ refl refl

  arrive-Moved :
      (a : Bool) (old : Option Node) (node : Node)
      → find src t ≡ some node
      → let (r, t') = arrive a old (relocated src dst node t) t in Moved src dst t r t'
  arrive-Moved a none node h = moves node h refl refl
  arrive-Moved a (some old) node h = replace-Moved a old.is_file node h

  pub rename-Moved : Moved src dst t (rename denied src dst t).0 (rename denied src dst t).1
  unfolding rename
  rename-Moved = elim (Bool-cases (denied src dst)) [
    | inl d ↦ rw d (stays _ refl refl)
    | inr d ↦ elim (Bool-cases (contains t.folders dst.folder)) [
      | inl c ↦ elim (Option-cases (find src t)) [
        | inl n ↦ rw (d, c, n) (stays _ refl refl)
        | inr (node, n) ↦ rw (d, c, n) (arrive-Moved node.is_file (find dst t) node n)
      ]
      | inr c ↦ rw (d, c) (stays _ refl refl)
    ]
  ]

  -- From a path that holds nothing, nothing moves.
  pub rename_absent : find src t ≡ none → (rename denied src dst t).1 ≡ t
  unfolding rename
  rename_absent h = ground arith

  -- A path other than the two keeps what it holds.
  pub find-rename_other :
      (q : FilePath) → src ≢ q → dst ≢ q → find q (rename denied src dst t).1 ≡ find q t
  find-rename_other q hs hd = elim rename-Moved [
    | stays e _ same ↦ rw same
    | moves node _ _ same ↦ rw same (find-relocated_other src dst q node t hs hd)
  ]

-- The conditions under which the system carries a rename of a file out.
pub record CanMove (denied : FilePath → FilePath → Bool) (src dst : FilePath) (node : Node)
    (t : Tree) : Type 0 where
  pub allowed : denied src dst ≡ false
  pub folder : contains t.folders dst.folder ≡ true
  pub here : find src t ≡ some node
  pub node_file : node.is_file ≡ true
  pub no_folder : (old : Node) → find dst t ≡ some old → old.is_file ≡ true

arrive_file :
    (node : Node) (old : Option Node) (moved t : Tree)
    → node.is_file ≡ true
    → ((other : Node) → old ≡ some other → other.is_file ≡ true)
    → arrive node.is_file old moved t ≡ (ok tt, moved)
arrive_file node none moved t f k = refl
arrive_file node (some other) moved t f k = rw (k other refl) (ground arith)

pub rename-CanMove :
    (denied : FilePath → FilePath → Bool) (src dst : FilePath) (node : Node) (t : Tree)
    → CanMove denied src dst node t
    → rename denied src dst t ≡ (ok tt, relocated src dst node t)
unfolding rename
rename-CanMove denied src dst node t c =
    rw (c.allowed, c.folder, c.here)
      (arrive_file node (find dst t) (relocated src dst node t) t c.node_file c.no_folder)
