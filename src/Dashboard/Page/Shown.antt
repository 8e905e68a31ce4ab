-- ===== src/Dashboard/Page/Shown.antt =====
-- scanner/dashboard.py: what the page shows of the run state.
use pms_scanner.Prelude.{
  ◌≡◌, refl, ◌⊎◌, sym, ap, inl, inr, some, List, [], ◌∷◌, map, Text, text_eq, All, All-map, Listed,
  ◌++◌, codes, not, Option, none, ℕ,
}
use pms_scanner.Prelude.Int.{ℤ}
use pms_scanner.Config.Assembly.{RawSettings, AppSettings, load_settings, valid}
use pms_scanner.State.{new_state}
use pms_scanner.State.Laws.{Update, calls, own, sum_of, pages_of, files_of, errors_of}
use pms_scanner.State.After.{file_after, start_after}
use pms_scanner.Config.{Environment}
use pms_scanner.Dashboard.Entry.{
  IsEntry, RunIf, RunsShown, not_started, as_current, as_last, env_status-IsEntry,
}
use pms_scanner.Dashboard.{PerEnvRun, EnvStatus, unconfigured, configure, status}
use pms_scanner.Dashboard.Page.Panes.{panes_shown}
use pms_scanner.Dashboard.Page.{
  Page, Pane, Element, heading, meta, empty, file_name, kv, meta_of, file_parts, run_parts,
  run_shown, build_pane, refresh,
}

-- The file that was named last, if it has a name, is shown.
pub data ShowsFile (us : List Update) (parts : List Element) : Type 0 where
  nameless : (file_after us none ≡ none) ⊎ (file_after us none ≡ some []) → ShowsFile us parts
  shows :
      (c : ℕ) (name : Text)
      → file_after us none ≡ some (c ∷ name)
      → Listed (file_name (c ∷ name)) parts
      → ShowsFile us parts

-- No run before the first start, and then the run that the calls have made.
pub data ShowsRun (us : List Update) (parts : List Element) : Type 0 where
  no_run :
      start_after us none ≡ none
      → Listed (empty (codes "idle " ++ 8212 ∷ codes " no run yet")) parts
      → ShowsRun us parts
  counts :
      (when : ℕ)
      → start_after us none ≡ some when
      → Listed (kv (codes "files processed") (sum_of files_of us)) parts
      → Listed (kv (codes "pages uploaded") (sum_of pages_of us)) parts
      → Listed (kv (codes "errors") (sum_of errors_of us)) parts
      → ShowsFile us parts
      → ShowsRun us parts

-- The pane of an environment whose runs have made these calls.
pub record IsPane (e : Environment) (us : List Update) (pane : Pane) : Type 0 where
  pub disabled : pane.disabled ≡ not e.enabled
  pub named : Listed (heading e.name) pane.parts
  pub run : ShowsRun us pane.parts

Listed-behind : {A : Type 0} (a : A) (xs ys : List A) → Listed a ys → Listed a (xs ++ ys)
Listed-behind a [] ys l = l
Listed-behind a (x ∷ xs) ys l = inr (Listed-behind a xs ys l)

-- The run that `run_shown` takes.
either-RunIf :
    (name : Text) (us : List Update) (now last : Option PerEnvRun)
    → RunsShown name us now last
    → RunIf name us (elim now [ some run ↦ some run | none ↦ last ])
either-RunIf name us _ _ (not_started h) = h
either-RunIf name us _ _ (as_current file when run k h made) = (when, h, made)
either-RunIf name us _ _ (as_last when run k h made) = (when, h, made)

file_parts-ShowsFile :
    (us : List Update) (x y : Element) (given : Option Text) (page total : ℕ) (parts : List Element)
    → file_after us none ≡ given
    → ShowsFile us (x ∷ y ∷ file_parts given page total ++ parts)
file_parts-ShowsFile us x y none page total parts h = nameless (inl h)
file_parts-ShowsFile us x y (some []) page total parts h = nameless (inr h)
file_parts-ShowsFile us x y (some (c ∷ name)) page total parts h =
    shows c name h (inr (inr (inl refl)))

kv-sum : (label : Text) {m n : ℕ} → m ≡ n → kv label m ≡ kv label n
kv-sum label e = ap (kv label) e

module _ (e : Environment) (us : List Update) where
  run_parts-ShowsRun :
      (x y : Element) (run : Option PerEnvRun)
      → RunIf e.name us run
      → ShowsRun us (x ∷ y ∷ run_parts run)
  run_parts-ShowsRun x y none h = no_run h (inr (inr (inl refl)))
  run_parts-ShowsRun x y (some run) (when, h, told) =
      let first = file_parts run.current_file run.current_page run.total_pages in
      counts when h (inr (inr (Listed-behind _ first _ (inl (kv-sum _ told.files_processed)))))
        (inr (inr (Listed-behind _ first _ (inr (inl (kv-sum _ told.pages_uploaded))))))
        (inr (inr (Listed-behind _ first _ (inr (inr (inl (kv-sum _ told.errors)))))))
        (file_parts-ShowsFile us x y run.current_file run.current_page run.total_pages _
          (sym told.current_file))

  build_pane-IsPane :
      (entry : EnvStatus) → IsEntry e us entry → IsPane e us (build_pane e.name entry)
  unfolding build_pane
  build_pane-IsPane entry made = record {
    disabled = ap not made.enabled;
    named = inl refl;
    run =
        run_parts-ShowsRun (heading e.name) (meta (meta_of entry)) (run_shown entry)
          (either-RunIf e.name us entry.current_run entry.last_run made.runs);
  }

-- Under settings that `load_settings` accepts, and a run state made for their environments, the
-- page that `refresh` leaves has for every configured environment a pane, which is marked as
-- disabled where the environment is, with the name of the environment. Before the environment's
-- first start the pane says that there was no run. After it, the pane shows as "files processed"
-- and "pages uploaded" the sums that the environment's own calls, and no others, have counted, as
-- "errors" the number of errors that they added, and the file that they named last, if any. The
-- browser's `sort` has to give the names that it gets, no more and no fewer.
pub page_shows_environments :
    (fixed : ℤ → Text) (sort : List Text → List Text) (resolve : Text → Text) (raw : RawSettings)
    (s : AppSettings) (trace : List (Text × Update)) (page : Page)
    → ((names : List Text) (x : Text) → Listed x names → Listed x (sort names))
    → ((names : List Text) (x : Text) → Listed x (sort names) → Listed x names)
    → load_settings resolve raw ≡ valid s
    → let answer = status (
        configure s
          (calls trace (new_state s.machine (map (λ e. e.name) s.environments)))
          unconfigured) in
      All
        (λ e.
          (pane : Pane) × Listed pane (refresh fixed sort answer page).panes
          × IsPane e (own e.name trace) pane)
        s.environments
page_shows_environments fixed sort resolve raw s trace page keeps adds h =
    All-map _ _
      (λ e here. (
        _,
        here,
        build_pane-IsPane e (own e.name trace) _
            (env_status-IsEntry s.machine.name e (own e.name trace)),
      ))
      s.environments (panes_shown fixed sort resolve raw s trace page keeps adds h)
