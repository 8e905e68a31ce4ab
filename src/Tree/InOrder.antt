-- ===== src/Tree/InOrder.antt =====
-- Trees in which no rename between the folders of a machine fails.
use pms_scanner.Prelude.{
  ◌≡◌, ◌≢◌, refl, sym, ◌∙◌, Bool, true, false, none, some, Text, text_eq, contains, ok, raised,
  file_not_found, ◌==◌, if◌then◌else◌,
}
use mathlib.Core.Path.{subst}
use mathlib.Core.Option.{some-injective, none-ne-some}
use pms_scanner.Tree.{
  Tree, Node, FilePath, Folder, in_progress, at, find, rename, relocated, folder_eq, path_eq,
}
use pms_scanner.Tree.Laws.{CanMove, rename-CanMove, find-relocated}

-- The folders of machine `m` are there, and what stands in the tree are files.
pub record InOrder (m : Text) (t : Tree) : Type 0 where
  pub there :
      (folder : Folder)
      → ((k : Text) → folder ≡ in_progress k → k ≡ m)
      → contains t.folders folder ≡ true
  pub files : (p : FilePath) (x : Node) → find p t ≡ some x → x.is_file ≡ true

-- `m` claims nothing, or at most `name`.
abbrev pub Unclaimed : Text → Tree → Type 0
Unclaimed m t = (n : Text) → find (at (in_progress m) n) t ≡ none

abbrev pub OnlyClaim : Text → Text → Tree → Type 0
OnlyClaim m name t = (n : Text) → n ≢ name → find (at (in_progress m) n) t ≡ none

module _ (src dst : FilePath) (node : Node) (t : Tree) where
  found_in :
      (a b : Bool) (p : FilePath) (x : Node)
      → ((q : FilePath) (y : Node) → find q t ≡ some y → y.is_file ≡ true)
      → node.is_file ≡ true
      → (if a then some node else if b then none else find p t) ≡ some x
      → x.is_file ≡ true
  found_in true b p x files f h = subst (λ (y : Node). y.is_file ≡ true) (some-injective _ _ h) f
  found_in false true p x files f h = absurd (none-ne-some x h)
  found_in false false p x files f h = files p x h

  pub relocated-InOrder :
      (m : Text) → InOrder m t → find src t ≡ some node → InOrder m (relocated src dst node t)
  unfolding relocated
  relocated-InOrder m order here = record {
    there = order.there;
    files = λ p x h.
        found_in (dst == p) (src == p) p x order.files (order.files src node here)
          (sym (find-relocated src dst p node t) ∙ h);
  }

  pub CanMove-InOrder :
      (m : Text) (denied : FilePath → FilePath → Bool)
      → InOrder m t
      → denied src dst ≡ false
      → ((k : Text) → dst.folder ≡ in_progress k → k ≡ m)
      → find src t ≡ some node
      → CanMove denied src dst node t
  CanMove-InOrder m denied order allowed mine here = record {
    allowed = allowed;
    folder = order.there dst.folder mine;
    here = here;
    node_file = order.files src node here;
    no_folder = order.files dst;
  }

module _ (src dst : FilePath) (t : Tree) (m : Text) (denied : FilePath → FilePath → Bool)
    (order : InOrder m t) (allowed : denied src dst ≡ false)
    (mine : (k : Text) → dst.folder ≡ in_progress k → k ≡ m) where
  pub rename_present :
      (node : Node)
      → find src t ≡ some node
      → rename denied src dst t ≡ (ok tt, relocated src dst node t)
  rename_present node here =
      rename-CanMove denied src dst node t
        (CanMove-InOrder src dst node t m denied order allowed mine here)

  pub rename_missing : find src t ≡ none → rename denied src dst t ≡ (raised file_not_found, t)
  unfolding rename
  rename_missing gone = rw (allowed, order.there dst.folder mine, gone) refl
