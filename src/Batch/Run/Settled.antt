-- ===== src/Batch/Run/Settled.antt =====
-- `_find_settled` where nobody else touches the tree meanwhile.
use mathlib.Core.Path.{subst}
use mathlib.Core.Option.{some-injective, none-ne-some}
use pms_scanner.Prelude.{
  ℕ, ◌≡◌, refl, sym, ap, ◌∙◌, inl, inr, Bool, true, false, ◌&&◌, Option, none, some, Bool-cases,
  List, [], ◌∷◌, Text, Listed, All-Listed, if◌then◌else◌, Result, ok, raised, file_not_found,
}
use pms_scanner.FileName.{is_supported}
use pms_scanner.Tree.{Tree, Node, Folder, watch, at, find, is_file, iterdir}
use pms_scanner.Tree.Listing.{iterdir-find}
use pms_scanner.Batch.Ensures.{Ensures, After, Never, Ensures-bind, Ensures-pure, Ensures-weaken}
use pms_scanner.Batch.World.{Outside, Runner}
use pms_scanner.Batch.Run.{is_settled, examine, find_settled}

pub iterdir-Listed :
    (folder : Folder) (name : Text) (node : Node) (t : Tree)
    → find (at folder name) t ≡ some node
    → Listed name (iterdir folder t)
iterdir-Listed folder name node t here =
    iterdir-find (λ x. Listed x (iterdir folder t)) folder name node t here
      (All-Listed (iterdir folder t) (λ x h. h))

false_ne_true : false ≡ true → ⊥
false_ne_true e = cc

-- A file under this name that is a scan and has settled at the time.
pub record Ready (o : Outside) (r : Runner) (time : ℕ) (name : Text) (node : Node) (t : Tree)
    : Type 0 where
  pub here : find (at watch name) t ≡ some node
  pub supported : is_supported name ≡ true
  pub settled : is_settled o r time node.mtime ≡ true
  pub file : node.is_file ≡ true

module _ (o : Outside) (r : Runner) (time : ℕ) (t0 : Tree)
    (quiet : (name : Text) (t : Tree) → o.before_stat name t ≡ t) where
  -- The tree is as it was, and the test is passed by what is ready.
  abbrev Tested : Text → Bool → Tree → Type 0
  Tested name kept t = (t ≡ t0) × ((node : Node) → Ready o r time name node t0 → kept ≡ true)

  module _ (name : Text) (supported : Bool)
      (known : (node : Node) → Ready o r time name node t0 → supported ≡ true) where
    of_node :
        (u : Tree) (x : Node) (file : Bool)
        → u ≡ t0
        → ((node : Node) → Ready o r time name node t0 → (x ≡ node) × (file ≡ true))
        → let rest : Result Bool × Tree =
            if file && supported then (ok (is_settled o r time x.mtime), u) else (ok false, t0) in
          After (Tested name) Never rest.0 rest.1
    of_node u x file same is_it = elim (Bool-cases (file && supported)) [
      | inl e ↦ rw e (same, λ node ready. rw (sym (is_it node ready).0) at ready.settled)
      | inr e ↦ rw e (refl, λ node ready. sym e ∙ rw ((is_it node ready).1, known node ready) refl)
    ]

    of_entry :
        (u : Tree) (found : Option Node)
        → u ≡ t0
        → ((node : Node) → Ready o r time name node t0 → found ≡ some node)
        → let rest : Result Bool × Tree =
            if (elim found [ none ↦ false | some x ↦ x.is_file ]) && supported
            then elim found [
              | none ↦ (raised file_not_found, u)
              | some x ↦ (ok (is_settled o r time x.mtime), u)
            ]
            else (ok false, t0) in
          After (Tested name) Never rest.0 rest.1
    of_entry u none same is_it = (refl, λ node ready. absurd (none-ne-some node (is_it node ready)))
    of_entry u (some x) same is_it = of_node u x x.is_file same (λ node ready.
        let e = some-injective _ _ (is_it node ready) in
        (e, ap (λ (y : Node). y.is_file) e ∙ ready.file))

  -- The test of an entry, with the tree that the request for its age meets.
  abbrev test_in : Text → Tree → Result Bool × Tree
  test_in name u =
      if is_file (at watch name) t0 && is_supported name
      then elim (find (at watch name) u) [
        | none ↦ (raised file_not_found, u)
        | some x ↦ (ok (is_settled o r time x.mtime), u)
      ]
      else (ok false, t0)

  examined :
      (name : Text) (u : Tree)
      → u ≡ t0
      → After (Tested name) Never (test_in name u).0 (test_in name u).1
  examined name u same =
      subst (λ (v : Tree). After (Tested name) Never (test_in name v).0 (test_in name v).1)
        (sym same)
        (of_entry name (is_supported name) (λ node ready. ready.supported) t0
          (find (at watch name) t0) refl (λ node ready. ready.here))

  examine-Tested : (name : Text) → Ensures (λ t. t ≡ t0) (Tested name) Never (examine o r time name)
  unfolding examine
  examine-Tested name = record {
    at = λ t h.
        subst
          (λ (u : Tree).
            After (Tested name) Never (examine o r time name u).0 (examine o r time name u).1)
          (sym h) (examined name (o.before_stat name t0) (quiet name t0));
  }

  -- The listing keeps the files that are ready.
  abbrev pub Found : List Text → List Text → Tree → Type 0
  Found names found t =
      (t ≡ t0)
      × ((name : Text) (node : Node)
          → Listed name names
          → Ready o r time name node t0
          → Listed name found)

  kept_step :
      (name : Text) (names rest : List Text) (settled : Bool)
      → ((node : Node) → Ready o r time name node t0 → settled ≡ true)
      → (t : Tree) → Found names rest t
      → Found (name ∷ names) (if settled then name ∷ rest else rest) t
  kept_step name names rest true test t (same, found) =
      (same, λ x node. λ l k. elim l [ inl e ↦ inl e | inr l' ↦ inr (found x node l' k) ])
  kept_step name names rest false test t (same, found) = (
    same,
    λ x node. λ l k. elim l [
      | inl e ↦
          absurd
            (false_ne_true (test node (subst (λ (z : Text). Ready o r time z node t0) (sym e) k)))
      | inr l' ↦ found x node l' k
    ],
  )

  pub find_settled-Found :
      (names : List Text) → Ensures (λ t. t ≡ t0) (Found names) Never (find_settled o r time names)
  unfolding find_settled
  find_settled-Found [] =
      Ensures-weaken (λ t h. (h, λ name node l k. l)) (λ found t h. h) (λ t h. h)
        (Ensures-pure {Q = Found []} [])
  find_settled-Found (name ∷ names) = Ensures-bind (examine-Tested name) (λ settled. record {
    at = λ t (same, test).
        (Ensures-bind (find_settled-Found names) (λ rest.
            Ensures-weaken (kept_step name names rest settled test) (λ kept u h. h) (λ u h. h)
              (Ensures-pure {Q = Found (name ∷ names)} _))).at
          t same;
  })
