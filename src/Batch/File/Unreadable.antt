-- ===== src/Batch/File/Unreadable.antt =====
-- `_process_file` for a file that cannot be split into pages.
use pms_scanner.Prelude.{
  ◌+◌, ◌≡◌, refl, none, some, [], ◌∷◌, Text, text_eq, ==-refl, length, length-append, arith, Result,
  ok, raised, Fault, lift, handling, ◌>>=◌, if◌then◌else◌,
}
use pms_scanner.Prelude.Dict
use pms_scanner.State.{PerEnvRunState, ErrorRecord, set_current, show_current, add_error, log_error}
use pms_scanner.State.Laws.{env_state, change-some}
use pms_scanner.Tree.{watch, Node, at, find, relocated}
use pms_scanner.Tree.Laws.{CanMove, rename-CanMove}
use pms_scanner.Pdf.{process_pdf}
use pms_scanner.Batch.World.{
  Outside, Runner, World, Status, on_run, on_tree, fire, now, event, file_started,
}
use pms_scanner.Batch.File.{in_self, move, try_file, on_exception, swallow, at_last, process_file}
use pms_scanner.Batch.File.Outcome.{load_pages-found}

module _ (o : Outside) (r : Runner) (name : Text) where
  -- What the handler and the `finally` block leave of a file that raised an exception.
  abbrev pub Returned : Node → PerEnvRunState → World → Result Status × World → Type 0
  Returned node st w (res, w') =
      (res ≡ ok Status.failed)
      × (w'.tree ≡ relocated (at (in_self o r) name) (at watch name) node w.tree)
      × (w'.net ≡ w.net)
      × ((st' : PerEnvRunState) × (env_state r.env.name w'.run ≡ some st')
          × (st'.pages_uploaded ≡ st.pages_uploaded)
          × (st'.files_processed ≡ st.files_processed)
          × (length st'.errors ≡ length st.errors + 1))

  abbrev failure : Fault → World → ErrorRecord
  failure e w = record { filename = name; message = o.describe e; page_num = none; at = now o w }

  abbrev with_env : PerEnvRunState → World → World
  with_env st w = record w {
    run = record w.run { per_env = Dict.insert r.env.name st w.run.per_env };
  }

  on_exception-Returned :
      (e : Fault) (node : Node) (st : PerEnvRunState) (w : World)
      → CanMove o.denied (at (in_self o r) name) (at watch name) node w.tree
      → env_state r.env.name w.run ≡ some st
      → Returned node st w (on_exception o r name e w)
  unfolding on_exception on_run add_error move on_tree handling swallow ◌>>=◌
  on_exception-Returned e node st w c h =
      rw
        (
          change-some r.env.name (log_error (failure e w)) w.run st h,
          rename-CanMove o.denied _ _ node w.tree c,
        )
        (
          refl,
          refl,
          refl,
          (
            log_error (failure e w) st,
            rw (Dict.lookup-insert, ==-refl r.env.name) refl,
            refl,
            refl,
            omega (arith, length-append st.errors (failure e w ∷ [])),
          ),
        )

  at_last-Returned :
      (node : Node) (st : PerEnvRunState) (w : World) (m : Result Status × World)
      → Returned node st w m
      → Returned node st w (handling (λ _. m) (at_last o r name) w)
  unfolding at_last set_current on_run fire handling lift ◌>>=◌
  at_last-Returned node st w (res, w') (done, tree, net, (st', at_st', pages, files, errors)) =
      rw (done, change-some r.env.name (show_current none none none) w'.run st' at_st')
        (
          refl,
          tree,
          net,
          (
            show_current none none none st',
            rw (Dict.lookup-insert, ==-refl r.env.name) refl,
            pages,
            files,
            errors,
          ),
        )

  -- A claimed file whose pages cannot be read, in a configured environment and where the system
  -- lets it move, returns to the watch folder. `_process_file` reports it as failed, sends nothing,
  -- records one error and counts nothing else.
  pub process_file_unreadable :
      (w : World) (node : Node) (st : PerEnvRunState) (e : Fault)
      → find (at (in_self o r) name) w.tree ≡ some node
      → process_pdf o.imaging name node.bytes ≡ raised e
      → CanMove o.denied (at (in_self o r) name) (at watch name) node w.tree
      → env_state r.env.name w.run ≡ some st
      → Returned node st w (process_file o r name w)
  unfolding process_file set_current on_run fire ◌>>=◌ handling try_file
  process_file_unreadable w node st e here unread c h =
      let st₀ = show_current (some name) (some 0) none st in
      let w₀ : World = record (with_env st₀ w) {
        events = if r.emit then event r (file_started name) ∷ w.events else w.events;
      } in
      rw
        (
          change-some r.env.name (show_current (some name) (some 0) none) w.run st h,
          load_pages-found o r name w₀ node here,
          unread,
        )
        (at_last-Returned node st₀ w₀ (on_exception o r name e w₀) (
          on_exception-Returned e node st₀ w₀ c (rw (Dict.lookup-insert, ==-refl r.env.name) refl)))
