-- ===== src/Batch/File/Outcome.antt =====
-- Where a file goes and what is counted, from the outcomes of its pages.
use pms_scanner.Prelude.{
  ◌+◌, ◌≡◌, refl, ◌∙◌, ap, Bool, true, false, none, some, List, ◌∷◌, Text, text_eq, ==-refl, length,
  arith, Result, ok, lift, pure, ◌>>=◌, if◌then◌else◌, handling, inl, inr, Option-cases,
}
use pms_scanner.Prelude.Dict
use pms_scanner.State.{PerEnvRunState, add_files_processed, set_current, show_current, bump_files}
use pms_scanner.State.Laws.{env_state, change-some}
use pms_scanner.Uploader.{UploadOutcome, Net}
use pms_scanner.Tree.{Folder, watch, processed, Node, at, find, relocated}
use pms_scanner.Tree.Laws.{CanMove, rename-CanMove}
use pms_scanner.Pdf.{PageImage, process_pdf}
use pms_scanner.Batch.World.{
  Outside, Runner, World, Status, completed, failed_permanent, on_run, on_tree, fire, notify, event,
  file_started,
}
use pms_scanner.Batch.File.{
  in_self, load_pages, process_pages, move, quarantine_notice, dispose, try_file, handle, at_last,
  process_file, Flags,
}
use pms_scanner.Batch.File.Pages.{
  Uploads, Tally, process_pages-Left, all_flags_lem, all_accepted, any_rejected, accepted_count,
  refused_count, one_if,
}

-- The status and the folder of a finished file.
abbrev pub status_of : Bool → Bool → Status
status_of true rejection = completed
status_of false true = failed_permanent
status_of false false = Status.failed

abbrev pub destination : Bool → Bool → Folder
destination true rejection = processed
destination false true = Folder.failed
destination false false = watch

module _ (o : Outside) (r : Runner) (name : Text) where
  -- What disposing of the file leaves.
  abbrev pub Disposed : Bool → Bool → Node → PerEnvRunState → World → Result Status × World → Type 0
  Disposed a u node st w (res, w') =
      (res ≡ ok (status_of a u))
      × (w'.tree ≡ relocated (at (in_self o r) name) (at (destination a u) name) node w.tree)
      × ((st' : PerEnvRunState) × (env_state r.env.name w'.run ≡ some st')
          × (st'.pages_uploaded ≡ st.pages_uploaded)
          × (st'.files_processed ≡ st.files_processed + one_if a)
          × (length st'.errors ≡ length st.errors))
      × (w'.net ≡ w.net)

  dispose-Disposed :
      (a u : Bool) (node : Node) (st : PerEnvRunState) (w : World)
      → CanMove o.denied (at (in_self o r) name) (at (destination a u) name) node w.tree
      → env_state r.env.name w.run ≡ some st
      → Disposed a u node st w (dispose o r name (record { all_ok = a; unrecoverable = u }) w)
  unfolding dispose move quarantine_notice on_tree on_run add_files_processed notify ◌>>=◌
  dispose-Disposed true u node st w c h =
      rw
        (
          rename-CanMove o.denied _ _ node w.tree c,
          change-some r.env.name (bump_files 1) w.run st h,
        )
        (
          refl,
          refl,
          (bump_files 1 st, rw (Dict.lookup-insert, ==-refl r.env.name), refl, refl, refl),
          refl,
        )
  dispose-Disposed false true node st w c h = elim (Option-cases r.notifier) [
    | inl e ↦
        rw (rename-CanMove o.denied _ _ node w.tree c, e)
          (refl, refl, (st, h, refl, omega arith, refl), refl)
    | inr (settings, e) ↦
        rw (rename-CanMove o.denied _ _ node w.tree c, e)
          (refl, refl, (st, h, refl, omega arith, refl), refl)
  ]
  dispose-Disposed false false node st w c h =
      rw (rename-CanMove o.denied _ _ node w.tree c)
        (refl, refl, (st, h, refl, omega arith, refl), refl)

  -- The loaded pages, with the world as it was.
  pub load_pages-found :
      (w : World) (node : Node)
      → find (at (in_self o r) name) w.tree ≡ some node
      → load_pages o r name w ≡ (process_pdf o.imaging name node.bytes, w)
  unfolding load_pages
  load_pages-found w node e = rw (e, load_pages) refl

  -- What `_process_file` leaves.
  abbrev pub Finished :
      List UploadOutcome → Net → Node → PerEnvRunState → World → Result Status × World → Type 0
  Finished us n node st w (res, w') =
      let a = all_accepted us in
      let u = any_rejected us in
      (res ≡ ok (status_of a u))
      × (w'.tree ≡ relocated (at (in_self o r) name) (at (destination a u) name) node w.tree)
      × ((st' : PerEnvRunState) × (env_state r.env.name w'.run ≡ some st')
          × (st'.pages_uploaded ≡ st.pages_uploaded + accepted_count us)
          × (st'.files_processed ≡ st.files_processed + one_if a)
          × (length st'.errors ≡ length st.errors + refused_count us))
      × (w'.net ≡ n)

  -- From the end of the loop over the pages to the end of the file.
  Finished-of :
      (us : List UploadOutcome) (n : Net) (node : Node) (st st₁ st₂ : PerEnvRunState) (w w₂ : World)
      (m : Result Status × World)
      → Tally us st₁ st₂
      → st₁.pages_uploaded ≡ st.pages_uploaded
      → st₁.files_processed ≡ st.files_processed
      → length st₁.errors ≡ length st.errors
      → w₂.tree ≡ w.tree
      → w₂.net ≡ n
      → Disposed (all_accepted us) (any_rejected us) node st₂ w₂ m
      → Finished us n node st w m
  Finished-of us n node st st₁ st₂ w w₂ m tally a b c e k
        (res, tree, (st₃, at_st, pages, files, errors), net) =
      (
        res,
        tree
            ∙ ap
                (relocated (at (in_self o r) name)
                  (at (destination (all_accepted us) (any_rejected us)) name) node)
                e,
        (st₃, at_st, omega arith, omega arith, omega arith),
        net ∙ k,
      )

  try_file-Finished :
      (w : World) (node : Node) (st : PerEnvRunState) {pages : List (PageImage o.imaging.Image)}
      {us : List UploadOutcome} {n : Net}
      → find (at (in_self o r) name) w.tree ≡ some node
      → process_pdf o.imaging name node.bytes ≡ ok pages
      → Uploads o r name pages w.net us n
      → CanMove o.denied
          (at (in_self o r) name)
          (at (destination (all_accepted us) (any_rejected us)) name)
          node
          w.tree
      → env_state r.env.name w.run ≡ some st
      → Finished us n node st w (try_file o r name w)
  unfolding try_file set_current on_run ◌>>=◌
  try_file-Finished w node st {pages} {us} {n} here loaded ups c h =
      let st₁ = show_current none none (some (length pages)) st in
      let w₁ : World = record w {
        run = record w.run { per_env = Dict.insert r.env.name st₁ w.run.per_env };
      } in
      let flags : Flags = record { all_ok = true; unrecoverable = false } in
      let w₂ = (process_pages o r name (length pages) flags pages w₁).1 in
      let (done, tree, net, (st₂, at_st₂, tally)) =
        process_pages-Left o r name (length pages) flags w₁ st₁ ups refl
          (rw (Dict.lookup-insert, ==-refl r.env.name) refl) in
      rw
        (
          load_pages-found w node here,
          loaded,
          change-some r.env.name (show_current none none (some (length pages))) w.run st h,
          done,
          all_flags_lem true false us,
        )
        (Finished-of us n node st st₁ st₂ w w₂
          (dispose o r name (record { all_ok = all_accepted us; unrecoverable = any_rejected us })
            w₂)
          tally refl refl refl tree net
          (dispose-Disposed (all_accepted us) (any_rejected us) node st₂ w₂ (rw tree c) at_st₂))

  -- The `finally` block keeps what the file has come to.
  at_last-Finished :
      (us : List UploadOutcome) (n : Net) (node : Node) (st₀ st : PerEnvRunState) (w₀ w : World)
      (res : Result Status) (w' : World)
      → st₀.pages_uploaded ≡ st.pages_uploaded
      → st₀.files_processed ≡ st.files_processed
      → length st₀.errors ≡ length st.errors
      → w₀.tree ≡ w.tree
      → Finished us n node st₀ w₀ (res, w')
      → Finished us n node st w
          (handling (handling (λ _. (res, w')) (handle o r name)) (at_last o r name) w₀)
  unfolding at_last set_current on_run fire handling lift pure ◌>>=◌
  at_last-Finished us n node st₀ st w₀ w res w' a b c e
        (done, tree, (st', at_st', pages, files, errors), net) =
      rw (done, change-some r.env.name (show_current none none none) w'.run st' at_st')
        (
          refl,
          tree
              ∙ ap
                  (relocated (at (in_self o r) name)
                    (at (destination (all_accepted us) (any_rejected us)) name) node)
                  e,
          (
            show_current none none none st',
            rw (Dict.lookup-insert, ==-refl r.env.name) refl,
            omega arith,
            omega arith,
            omega arith,
          ),
          net,
        )

  -- For a claimed file of a configured environment whose pages load and none of whose uploads
  -- raises, and where the system carries the move out: `_process_file` completes. It moves the file
  -- to `processed/` where every page was accepted, else to `failed/` where a page was rejected,
  -- else back to the watch folder, and reports the status that fits. It counts each accepted page
  -- once, records one error for each other page, and counts the file only where it is `processed/`.
  -- It sends nothing but the uploads.
  pub process_file_outcome :
      (w : World) (node : Node) (st : PerEnvRunState) {pages : List (PageImage o.imaging.Image)}
      {us : List UploadOutcome} {n : Net}
      → find (at (in_self o r) name) w.tree ≡ some node
      → process_pdf o.imaging name node.bytes ≡ ok pages
      → Uploads o r name pages w.net us n
      → CanMove o.denied
          (at (in_self o r) name)
          (at (destination (all_accepted us) (any_rejected us)) name)
          node
          w.tree
      → env_state r.env.name w.run ≡ some st
      → Finished us n node st w (process_file o r name w)
  unfolding process_file set_current on_run fire ◌>>=◌ handling
  process_file_outcome w node st {pages} {us} {n} here loaded ups c h =
      let st₀ = show_current (some name) (some 0) none st in
      let w₀ : World = record w {
        run = record w.run { per_env = Dict.insert r.env.name st₀ w.run.per_env };
        events = if r.emit then event r (file_started name) ∷ w.events else w.events;
      } in
      let m = try_file o r name w₀ in
      rw (change-some r.env.name (show_current (some name) (some 0) none) w.run st h) (
        at_last-Finished us n node st₀ st w₀ w m.0 m.1 refl refl refl refl (
          try_file-Finished w₀ node st₀ here loaded ups c
            (rw (Dict.lookup-insert, ==-refl r.env.name) refl)))
