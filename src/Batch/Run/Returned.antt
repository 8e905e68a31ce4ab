-- ===== src/Batch/Run/Returned.antt =====
-- `recover_stranded` brings a stranded scan back to the watch folder.
use mathlib.Core.Path.{subst}
use mathlib.Core.Option.{none-ne-some}
use pms_scanner.Prelude.{
  arith, ℕ, ◌≡◌, ◌≢◌, ◌⊎◌, refl, sym, ap, ◌∙◌, inl, inr, Bool, true, false, ◌&&◌, Option, none,
  some, List, [], ◌∷◌, ◌++◌, Text, codes, Bool-cases, ◌==◌, ==-refl, ==-false, ==-true,
  if◌then◌else◌, Exec, Result, ok, raised, pure, proceed, reading, ◌>>=◌, contains, text_eq,
}
use pms_scanner.FileName.{is_supported}
use pms_scanner.Tree.{
  Tree, Node, FilePath, watch, at, find, is_file, exists, iterdir, rename, relocated, folder_eq,
  path_eq,
}
use pms_scanner.Tree.Laws.{stays, moves, rename-Moved, find-relocated}
use pms_scanner.Batch.Preserves.{Preserves, Preserves-bind, Preserves-pure}
use pms_scanner.Batch.World.{Outside, Runner}
use pms_scanner.Batch.File.{in_self}
use pms_scanner.Batch.Run.{recovered_name, recover_one, recover_all, recover_stranded}
use pms_scanner.Batch.Run.Recovery.{DotFree, unsupported}
use pms_scanner.Batch.Run.Emptied.{recover_stranded_lem, recover_stranded_empties}

module _ (o : Outside) (r : Runner) (clock : ℕ) (name : Text) (node : Node) where
  -- The scan waits in the machine's own folder with its name free in the watch folder, or has
  -- returned under its name.
  abbrev Waits : Tree → Type 0
  Waits t = (find (at (in_self o r) name) t ≡ some node) × (find (at watch name) t ≡ none)

  abbrev Returned : Tree → Type 0
  Returned t = (find (at (in_self o r) name) t ≡ none) × (find (at watch name) t ≡ some node)

  abbrev Kept : Tree → Type 0
  Kept t = Waits t ⊎ Returned t

  -- The new name of another file is not this scan's.
  recovered_name-ne :
      (t : Tree) (n : Text)
      → DotFree (o.stamp clock)
      → is_supported name ≡ true
      → n ≢ name
      → recovered_name o r clock n t ≢ name
  recovered_name-ne t n dots sup ne e = elim (Bool-cases (exists (at watch n) t)) [
    | inl taken ↦
        ne_true
          (sym sup ∙ ap is_supported (sym (rw taken at e)) ∙ unsupported n (o.stamp clock) dots)
    | inr free ↦ ne (rw free at e)
  ]
    where
      ne_true : true ≡ false → ⊥
      ne_true h = cc

  own_ne : (n new : Text) → at watch new ≢ at (in_self o r) n
  own_ne n new h = cc

  find-moved_other :
      (n new : Text) (x : Node) (t : Tree)
      → n ≢ name
      → new ≢ name
      → Kept t
      → Kept (relocated (at (in_self o r) n) (at watch new) x t)
  find-moved_other n new x t ne ne' k = elim k [
    | inl (own, free) ↦ inl (same_own ∙ own, same_watch ∙ free)
    | inr (gone, there) ↦ inr (same_own ∙ gone, same_watch ∙ there)
  ]
    where
      same_own :
          find (at (in_self o r) name) (relocated (at (in_self o r) n) (at watch new) x t)
          ≡ find (at (in_self o r) name) t
      same_own =
          find-relocated (at (in_self o r) n) (at watch new) (at (in_self o r) name) x t
          ∙ rw
              (
                ==-false (at watch new) (at (in_self o r) name) (own_ne name new),
                ==-false (at (in_self o r) n) (at (in_self o r) name)
                    (λ h. ne (ap (λ (p : FilePath). p.name) h)),
              )
              refl

      same_watch :
          find (at watch name) (relocated (at (in_self o r) n) (at watch new) x t)
          ≡ find (at watch name) t
      same_watch =
          find-relocated (at (in_self o r) n) (at watch new) (at watch name) x t
          ∙ rw
              (
                ==-false (at watch new) (at watch name)
                    (λ h. ne' (ap (λ (p : FilePath). p.name) h)),
                ==-false (at (in_self o r) n) (at watch name) (λ h. own_ne n name (sym h)),
              )
              refl

  find-moved_own :
      (t : Tree)
      → Waits t
      → (x : Node) → find (at (in_self o r) name) t ≡ some x
      → Returned (relocated (at (in_self o r) name) (at watch name) x t)
  find-moved_own t k x here = (
    find-relocated (at (in_self o r) name) (at watch name) (at (in_self o r) name) x t
        ∙ rw
            (
              ==-false (at watch name) (at (in_self o r) name) (own_ne name name),
              ==-refl (at (in_self o r) name),
            )
            refl,
    find-relocated (at (in_self o r) name) (at watch name) (at watch name) x t
        ∙ rw (==-refl (at watch name)) (sym here ∙ k.0),
  )

  own_name : (t : Tree) → Waits t → recovered_name o r clock name t ≡ name
  own_name t k =
      ap
        (λ (found : Option Node).
          if elim found [ none ↦ false | some _ ↦ true ]
          then name ++ (codes ".recovered-" ++ o.stamp clock)
          else name)
        k.1

  own-Kept :
      (t : Tree) (x : Node)
      → Kept t
      → find (at (in_self o r) name) t ≡ some x
      → Kept (relocated (at (in_self o r) name) (at watch (recovered_name o r clock name t)) x t)
  own-Kept t x (inl k) here =
      subst (λ (m : Text). Kept (relocated (at (in_self o r) name) (at watch m) x t))
        (sym (own_name t k)) (inr (find-moved_own t k x here))
  own-Kept t x (inr k) here = absurd (none-ne-some x (sym k.0 ∙ here))

  moved-Kept :
      (t : Tree) (n : Text) (x : Node)
      → DotFree (o.stamp clock)
      → is_supported name ≡ true
      → find (at (in_self o r) n) t ≡ some x
      → Kept t
      → Kept (relocated (at (in_self o r) n) (at watch (recovered_name o r clock n t)) x t)
  moved-Kept t n x dots sup here k = elim (Bool-cases (n == name)) [
    | inl same ↦
        subst
          (λ (m : Text).
            find (at (in_self o r) m) t ≡ some x
            → Kept (relocated (at (in_self o r) m) (at watch (recovered_name o r clock m t)) x t))
          (sym (==-true n name same)) (own-Kept t x k) here
    | inr other ↦
        let ne = ne_of other in
        find-moved_other n (recovered_name o r clock n t) x t ne (recovered_name-ne t n dots sup ne)
          k
  ]
    where
      ne_of : (n == name) ≡ false → n ≢ name
      ne_of h e = ground arith

  renamed-Kept :
      (t : Tree) (n : Text)
      → DotFree (o.stamp clock)
      → is_supported name ≡ true
      → Kept t
      → Kept (rename o.denied (at (in_self o r) n) (at watch (recovered_name o r clock n t)) t).1
  renamed-Kept t n dots sup k =
      elim (rename-Moved o.denied (at (in_self o r) n) (at watch (recovered_name o r clock n t))
        t) [
          | stays e failed same ↦ rw same k
          | moves x here done same ↦ rw same (moved-Kept t n x dots sup here k)
        ]

  proceed-pure : (m : Result (Unit {0})) (t : Tree) → (proceed (λ _. pure true) m t).1 ≡ t
  unfolding pure
  proceed-pure (ok u) t = refl
  proceed-pure (raised e) t = refl

  round-Kept :
      (t : Tree) (n new : Text) (test : Bool)
      → Kept t
      → Kept (rename o.denied (at (in_self o r) n) (at watch new) t).1
      → let m : Exec Tree Bool =
          if test
          then (rename o.denied (at (in_self o r) n) (at watch new) >>= λ _. pure true)
          else pure false in
        Kept (m t).1
  unfolding pure ◌>>=◌
  round-Kept t n new false k moved = k
  round-Kept t n new true k moved =
      subst Kept
        (sym (
          proceed-pure (rename o.denied (at (in_self o r) n) (at watch new) t).0
            (rename o.denied (at (in_self o r) n) (at watch new) t).1))
        moved

  module _ (dots : DotFree (o.stamp clock)) (sup : is_supported name ≡ true) where
    recover_one-Kept : (n : Text) → Preserves Kept (recover_one o r clock n)
    unfolding recover_one reading
    recover_one-Kept n = record {
      at = λ t k. round-Kept t n (recovered_name o r clock n t) _ k (renamed-Kept t n dots sup k);
    }

    recover_all-Kept : (names : List Text) → Preserves Kept (recover_all o r clock names)
    unfolding recover_all
    recover_all-Kept [] = Preserves-pure _
    recover_all-Kept (n ∷ names) =
        Preserves-bind _ _ (recover_one-Kept n)
          (λ recovered. Preserves-bind _ _ (recover_all-Kept names) (λ rest. Preserves-pure _))

    -- A stranded file with a supported extension, whose name is free in the watch folder, stands
    -- there under its own name and with its contents once `recover_stranded` returns, and it is
    -- gone from the machine's own folder, whatever else was stranded: for a stamp without a dot,
    -- and where the folder is there.
    pub recover_stranded_returns :
        (t : Tree) (found : List Text)
        → contains t.folders (in_self o r) ≡ true
        → (recover_stranded o r clock t).0 ≡ ok found
        → node.is_file ≡ true
        → find (at (in_self o r) name) t ≡ some node
        → find (at watch name) t ≡ none
        → (find (at (in_self o r) name) (recover_stranded o r clock t).1 ≡ none)
          × (find (at watch name) (recover_stranded o r clock t).1 ≡ some node)
    recover_stranded_returns t found there h file own free =
        let end =
          ap (λ (x : Result (List Text) × Tree). x.1) (recover_stranded_lem o r clock t there) in
        finished (recover_stranded o r clock t).1
          (subst Kept (sym end)
            ((recover_all-Kept (iterdir (in_self o r) t)).at t (inl (own, free))))
          (recover_stranded_empties o r clock t found name there h)
      where
        finished :
            (u : Tree)
            → Kept u
            → (is_file (at (in_self o r) name) u && is_supported name) ≡ false
            → Returned u
        finished u (inr k) clear = k
        finished u (inl k) clear = absurd (ne_true (sym (scans k.0) ∙ clear))
          where
            ne_true : true ≡ false → ⊥
            ne_true e = cc

            scans :
                find (at (in_self o r) name) u ≡ some node
                → (is_file (at (in_self o r) name) u && is_supported name) ≡ true
            scans here =
                ap
                  (λ (x : Option Node).
                    elim x [ none ↦ false | some n ↦ n.is_file ] && is_supported name)
                  here
                ∙ rw (file, sup) refl
