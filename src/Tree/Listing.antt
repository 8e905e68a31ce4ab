-- ===== src/Tree/Listing.antt =====
-- What `iterdir` lists.
use mathlib.Core.Path.{subst}
use pms_scanner.Prelude.{
  ◌≡◌, ap, ◌∙◌, inl, inr, Bool, some, List, [], ◌∷◌, Text, All, Bool-cases, ◌==◌, ==-true, ==-refl,
  if◌then◌else◌,
}
use mathlib.Core.Option.{none-ne-some}
use pms_scanner.Prelude.Dict
use pms_scanner.Prelude.Dict.{Dict}
use pms_scanner.Tree.{Tree, Folder, FilePath, Node, at, find, folder_eq, path_eq, names_in, iterdir}

module _ (P : Text → Type 0) (folder : Folder) (name : Text) (node : Node) where
  listed_or :
      (p : FilePath) (rest : List Text)
      → All P (if p.folder == folder then p.name ∷ rest else rest)
      → All P rest
  listed_or p rest h = elim (Bool-cases (p.folder == folder)) [
    | inl e ↦ (subst (λ (b : Bool). All P (if b then p.name ∷ rest else rest)) e h).1
    | inr e ↦ subst (λ (b : Bool). All P (if b then p.name ∷ rest else rest)) e h
  ]

  names_in-find :
      (nodes : Dict FilePath Node)
      → Dict.lookup (at folder name) nodes ≡ some node
      → All P (names_in folder nodes)
      → P name
  unfolding Dict.lookup names_in
  names_in-find [] h k = absurd (none-ne-some node h)
  names_in-find ((p, n) ∷ nodes) h k = elim (Bool-cases (p == at folder name)) [
    | inl e ↦
        subst P (ap (λ (q : FilePath). q.name) (==-true p (at folder name) e))
          (here (==-true p (at folder name) e))
    | inr e ↦ names_in-find nodes (rw (e, Dict.lookup) at h) (listed_or p (names_in folder nodes) k)
  ]
    where
      here : p ≡ at folder name → P p.name
      here same =
          (subst
            (λ (b : Bool).
              All P (if b then p.name ∷ names_in folder nodes else names_in folder nodes))
            (ap (λ (q : FilePath). q.folder == folder) same ∙ ==-refl folder) k).0

  -- What holds of every listed name holds of each name that is there.
  pub iterdir-find :
      (t : Tree) → find (at folder name) t ≡ some node → All P (iterdir folder t) → P name
  unfolding iterdir
  iterdir-find t h k = names_in-find t.nodes h k
