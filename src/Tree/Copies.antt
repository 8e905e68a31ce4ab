-- ===== src/Tree/Copies.antt =====
-- How many copies of a scan a tree holds.
use pms_scanner.Prelude.{
  ℕ, ◌+◌, ◌≤◌, ◌≡◌, ◌≢◌, Bool, true, some, [], ◌∷◌, ◌∙◌, ==-false, if◌then◌else◌, arith,
}
use pms_scanner.Prelude.Dict
use pms_scanner.Prelude.Dict.{Dict}
use pms_scanner.Tree.{Tree, Node, FilePath, Folder, path_eq, find, mkdir, relocated}

-- `tag` tells which nodes are copies.
module _ (tag : Node → Bool) where
  abbrev pub one : Bool → ℕ
  one b = if b then 1 else 0

  -- How many copies the nodes hold.
  unfoldable pub copies : Dict FilePath Node → ℕ
  copies [] = 0
  copies ((p, node) ∷ nodes) = one (tag node) + copies nodes

  pub copies-insert :
      (p : FilePath) (node : Node) (nodes : Dict FilePath Node)
      → copies (Dict.insert p node nodes) ≤ one (tag node) + copies nodes
  unfolding copies Dict.insert
  copies-insert p node [] = omega arith
  copies-insert p node ((q, old) ∷ nodes) = ground (arith, copies-insert p node nodes)

  pub copies-erase_le :
      (p : FilePath) (nodes : Dict FilePath Node) → copies (Dict.erase p nodes) ≤ copies nodes
  unfolding copies Dict.erase
  copies-erase_le p [] = omega arith
  copies-erase_le p ((q, old) ∷ nodes) = ground (arith, copies-erase_le p nodes)

  pub copies-erase :
      (p : FilePath) (node : Node) (nodes : Dict FilePath Node)
      → Dict.lookup p nodes ≡ some node
      → one (tag node) + copies (Dict.erase p nodes) ≤ copies nodes
  unfolding copies Dict.erase Dict.lookup
  copies-erase p node [] h = cc
  copies-erase p node ((q, old) ∷ nodes) h =
      ground (arith, copies-erase p node nodes, copies-erase_le p nodes)

  -- A copy is counted.
  pub copies-lookup :
      (p : FilePath) (node : Node) (nodes : Dict FilePath Node)
      → Dict.lookup p nodes ≡ some node
      → tag node ≡ true
      → 1 ≤ copies nodes
  copies-lookup p node nodes h k = omega (arith, rw k at (copies-erase p node nodes h))

  -- What is overwritten is gone.
  pub copies-insert_over :
      (p : FilePath) (node old : Node) (nodes : Dict FilePath Node)
      → Dict.lookup p nodes ≡ some old
      → copies (Dict.insert p node nodes) + one (tag old) ≤ one (tag node) + copies nodes
  unfolding copies Dict.insert Dict.lookup
  copies-insert_over p node old [] h = cc
  copies-insert_over p node old ((q, other) ∷ nodes) h =
      ground (arith, copies-insert_over p node old nodes)

  pub copies-relocated :
      (src dst : FilePath) (node : Node) (t : Tree)
      → find src t ≡ some node
      → copies (relocated src dst node t).nodes ≤ copies t.nodes
  unfolding relocated
  copies-relocated src dst node t h =
      omega
        (arith, copies-insert dst node (Dict.erase src t.nodes), copies-erase src node t.nodes h)

  pub copies-mkdir : (folder : Folder) (t : Tree) → copies (mkdir folder t).nodes ≤ copies t.nodes
  unfolding mkdir
  copies-mkdir folder t = ground arith

  -- Two places hold two copies.
  pub copies-two :
      (p q : FilePath) (x y : Node) (nodes : Dict FilePath Node)
      → p ≢ q
      → Dict.lookup p nodes ≡ some x
      → Dict.lookup q nodes ≡ some y
      → tag x ≡ true
      → tag y ≡ true
      → 2 ≤ copies nodes
  copies-two p q x y nodes ne hp hq tx ty =
      let still : Dict.lookup q (Dict.erase p nodes) ≡ some y =
        Dict.lookup-erase p q nodes ∙ rw (==-false p q ne) hq in
      omega (
        arith,
        rw tx at (copies-erase p x nodes hp),
        copies-lookup q y (Dict.erase p nodes) still ty,
      )
