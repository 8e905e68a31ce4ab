-- ===== src/Batch/Run/Emptied.antt =====
-- `recover_stranded` leaves no scan in the machine's own folder.
use mathlib.Core.Path.{subst}
use pms_scanner.Prelude.{
  ℕ, ◌≡◌, refl, sym, ap, ◌∙◌, inl, inr, Bool, true, false, ◌&&◌, Option, none, some, List, [], ◌∷◌,
  Text, All, Option-cases, ◌==◌, ==-refl, ==-false, if◌then◌else◌, Exec, Result, ok, raised, Fault,
  pure, reading, proceed, ◌>>=◌, contains,
}
use pms_scanner.FileName.{is_supported}
use pms_scanner.Tree.{
  Tree, Node, watch, at, find, is_file, iterdir, rename, relocated, folder_eq, path_eq,
}
use pms_scanner.Tree.Laws.{stays, moves, rename-Moved, find-relocated}
use pms_scanner.Tree.Listing.{iterdir-find}
use pms_scanner.Batch.Preserves.{Preserves, Preserves-bind, Preserves-pure, preserves_rules}
use pms_scanner.Batch.World.{Outside, Runner}
use pms_scanner.Batch.File.{in_self}
use pms_scanner.Batch.Run.{recovered_name, recover_one, recover_all, recover_stranded}

raised_ne_ok : {A : Type 0} (e : Fault) (a : A) → raised e ≡ ok a → ⊥
raised_ne_ok e a h = cc

module _ {S A B : Type 0} (f : A → Exec S B) (b : B) where
  proceed-ok :
      (r : Result A) (s : S)
      → (proceed f r s).0 ≡ ok b
      → (a : A) × (r ≡ ok a) × (f a s ≡ proceed f r s)
  proceed-ok (ok a) s h = (a, refl, refl)
  proceed-ok (raised e) s h = absurd (raised_ne_ok e b h)

  -- A sequence returns only if its first action does.
  pub bind-ok :
      (m : Exec S A) (s : S)
      → ((m >>= f) s).0 ≡ ok b
      → (a : A) × ((m s).0 ≡ ok a) × (f a (m s).1 ≡ (m >>= f) s)
  unfolding ◌>>=◌
  bind-ok m s h = proceed-ok (m s).0 (m s).1 h

-- Whether the node is a scan under this name.
abbrev is_scan : Text → Option Node → Bool
is_scan name none = false
is_scan name (some node) = node.is_file && is_supported name

is_scan_lem :
    (name : Text) (node : Option Node)
    → is_scan name node ≡ (elim node [ none ↦ false | some n ↦ n.is_file ] && is_supported name)
is_scan_lem name none = refl
is_scan_lem name (some node) = refl

true_ne_false : true ≡ false → ⊥
true_ne_false h = cc

module _ (o : Outside) (r : Runner) where
  -- No scan of this name stands in the machine's own folder.
  abbrev Clear : Text → Tree → Type 0
  Clear name t = is_scan name (find (at (in_self o r) name) t) ≡ false

  relocated-Clear :
      (name src new : Text) (node : Node) (t : Tree)
      → Clear name t
      → Clear name (relocated (at (in_self o r) src) (at watch new) node t)
  relocated-Clear name src new node t h =
      ap (is_scan name) found ∙ chosen (at (in_self o r) src == at (in_self o r) name)
    where
      chosen :
          (b : Bool) → is_scan name (if b then none else find (at (in_self o r) name) t) ≡ false
      chosen true = refl
      chosen false = h

      found :
          find (at (in_self o r) name) (relocated (at (in_self o r) src) (at watch new) node t) ≡ (
            if at (in_self o r) src == at (in_self o r) name
            then none
            else find (at (in_self o r) name) t)
      found =
          find-relocated (at (in_self o r) src) (at watch new) (at (in_self o r) name) node t
          ∙ rw (==-false (at watch new) (at (in_self o r) name) (λ k. cc)) refl

  rename-Clear :
      (name src new : Text)
      → Preserves (Clear name) (rename o.denied (at (in_self o r) src) (at watch new))
  rename-Clear name src new = record {
    at = λ t h. elim (rename-Moved o.denied (at (in_self o r) src) (at watch new) t) [
      | stays e failed same ↦ rw same h
      | moves node here done same ↦ rw same (relocated-Clear name src new node t h)
    ];
  }

  recover_one-Clear :
      (n : Text) (clock : ℕ) (name : Text) → Preserves (Clear n) (recover_one o r clock name)
  unfolding recover_one
  recover_one-Clear n clock name = search (preserves_rules, rename-Clear) depth 8

  recover_all-Clear :
      (n : Text) (clock : ℕ) (names : List Text) → Preserves (Clear n) (recover_all o r clock names)
  unfolding recover_all
  recover_all-Clear n clock [] = search preserves_rules
  recover_all-Clear n clock (name ∷ names) =
      Preserves-bind _ _ (recover_one-Clear n clock name) (λ recovered.
        Preserves-bind _ _ (recover_all-Clear n clock names) (λ rest. Preserves-pure _))

  renamed-Clear :
      (name new : Text) (t : Tree) (u : Unit {0})
      → (rename o.denied (at (in_self o r) name) (at watch new) t).0 ≡ ok u
      → Clear name (rename o.denied (at (in_self o r) name) (at watch new) t).1
  renamed-Clear name new t u h =
      elim (rename-Moved o.denied (at (in_self o r) name) (at watch new) t) [
        | stays e failed same ↦ absurd (raised_ne_ok e u (sym failed ∙ h))
        | moves node here done same ↦ rw same (ap (is_scan name) (gone node))
      ]
    where
      gone :
          (node : Node)
          → find (at (in_self o r) name) (relocated (at (in_self o r) name) (at watch new) node t)
            ≡ none
      gone node =
          find-relocated (at (in_self o r) name) (at watch new) (at (in_self o r) name) node t
          ∙ rw
              (
                ==-false (at watch new) (at (in_self o r) name) (λ k. cc),
                ==-refl (at (in_self o r) name),
              )
              refl

  one_round :
      (name new : Text) (t : Tree) (b : Bool) (test : Bool)
      → (is_file (at (in_self o r) name) t && is_supported name) ≡ test
      → let m : Exec Tree Bool =
          if test
          then (rename o.denied (at (in_self o r) name) (at watch new) >>= λ _. pure true)
          else pure false in
        (m t).0 ≡ ok b → Clear name (m t).1
  unfolding pure
  one_round name new t b false e h = is_scan_lem name (find (at (in_self o r) name) t) ∙ e
  one_round name new t b true e h =
      let (u, done, next) =
        bind-ok (λ (_ : Unit {0}). pure true) b
          (rename o.denied (at (in_self o r) name) (at watch new)) t h in
      subst (Clear name) (ap (λ (x : Result Bool × Tree). x.1) next)
        (renamed-Clear name new t u done)

  -- A round that returns leaves no scan of its name.
  recovered_one :
      (clock : ℕ) (name : Text) (t : Tree) (b : Bool)
      → (recover_one o r clock name t).0 ≡ ok b
      → Clear name (recover_one o r clock name t).1
  unfolding recover_one reading
  recovered_one clock name t b h = one_round name (recovered_name o r clock name t) t b _ refl h

  recovered_all :
      (clock : ℕ) (names : List Text) (t : Tree) (found : List Text)
      → (recover_all o r clock names t).0 ≡ ok found
      → All (λ name. Clear name (recover_all o r clock names t).1) names
  unfolding recover_all pure
  recovered_all clock [] t found h = tt
  recovered_all clock (name ∷ names) t found h =
      let (b, one, next) = bind-ok _ found (recover_one o r clock name) t h in
      let t1 = (recover_one o r clock name t).1 in
      let (rest, more, last) =
        bind-ok (λ rest. pure (if b then name ∷ rest else rest)) found (recover_all o r clock names)
          t1 (ap (λ (x : Result (List Text) × Tree). x.0) next ∙ h) in
      let end = ap (λ (x : Result (List Text) × Tree). x.1) (last ∙ next) in
      (
        subst (Clear name) end
            ((recover_all-Clear name clock names).at t1 (recovered_one clock name t b one)),
        subst (λ u. All (λ n. Clear n u) names) end (recovered_all clock names t1 rest more),
      )

  pub recover_stranded_lem :
      (clock : ℕ) (t : Tree)
      → contains t.folders (in_self o r) ≡ true
      → recover_stranded o r clock t ≡ recover_all o r clock (iterdir (in_self o r) t) t
  unfolding recover_stranded reading
  recover_stranded_lem clock t there = rw there refl

  all-Clear :
      (clock : ℕ) (t : Tree) (found : List Text) (name : Text)
      → (recover_all o r clock (iterdir (in_self o r) t) t).0 ≡ ok found
      → Clear name (recover_all o r clock (iterdir (in_self o r) t) t).1
  all-Clear clock t found name h = elim (Option-cases (find (at (in_self o r) name) t)) [
    | inl e ↦ (recover_all-Clear name clock _).at t (ap (is_scan name) e)
    | inr (node, e) ↦
        iterdir-find (λ n. Clear n (recover_all o r clock (iterdir (in_self o r) t) t).1)
          (in_self o r) name node t e (recovered_all clock _ t found h)
  ]

  -- Where `recover_stranded` returns, no file with a supported extension is left in the machine's
  -- own folder, if that folder is there.
  pub recover_stranded_empties :
      (clock : ℕ) (t : Tree) (found : List Text) (name : Text)
      → contains t.folders (in_self o r) ≡ true
      → (recover_stranded o r clock t).0 ≡ ok found
      → (is_file (at (in_self o r) name) (recover_stranded o r clock t).1 && is_supported name)
        ≡ false
  recover_stranded_empties clock t found name there h =
      let e = recover_stranded_lem clock t there in
      sym (is_scan_lem name (find (at (in_self o r) name) (recover_stranded o r clock t).1))
      ∙ ap (λ (x : Result (List Text) × Tree). is_scan name (find (at (in_self o r) name) x.1)) e
      ∙ all-Clear clock t found name (ap (λ (x : Result (List Text) × Tree). x.0) (sym e) ∙ h)
