-- ===== src/Startup/Folders.antt =====
-- What the start leaves in the folders of the environments.
use mathlib.Core.Path.{subst}
use pms_scanner.Prelude.{
  ℕ, ◌≡◌, ◌≢◌, refl, sym, ap, ◌∙◌, inl, inr, Bool, true, false, ◌&&◌, ◌||◌, List, [], ◌∷◌, Text,
  text_eq, ◌==◌, ==-refl, ==-false, All, All-map, Pairwise, contains, Bool-cases, Result, ok,
  raised, proceed, ◌>>=◌,
}
use pms_scanner.FileName.{is_supported}
use pms_scanner.Config.{Environment}
use pms_scanner.Config.Assembly.{AppSettings}
use pms_scanner.Tree.{
  Tree, Folder, watch, processed, in_progress, folder_eq, at, is_file, rename, mkdir, relocated,
  FilePath,
}
use pms_scanner.Tree.Laws.{stays, moves, rename-Moved}
use pms_scanner.Batch.Preserves.{Preserves, Preserves-bind, Preserves-pure, preserves_rules}
use pms_scanner.Batch.World.{Outside, Runner}
use pms_scanner.Batch.Run.{ensure_dirs, recover_one, recover_all, recover_stranded}
use pms_scanner.Batch.Run.Emptied.{bind-ok, recover_stranded_empties}
use pms_scanner.Startup.{Disk, startup_runner, recover_env, recover_envs}

abbrev HasFolder : Folder → Tree → Type 0
HasFolder f t = contains t.folders f ≡ true

mkdir-same : (f : Folder) (t : Tree) → HasFolder f (mkdir f t)
unfolding mkdir
mkdir-same f t = elim (Bool-cases (contains t.folders f)) [
  | inl e ↦ rw (e, mkdir) e
  | inr e ↦ rw (e, mkdir, ==-refl f) refl
]

mkdir-keeps : (f g : Folder) (t : Tree) → HasFolder g t → HasFolder g (mkdir f t)
unfolding mkdir
mkdir-keeps f g t h = elim (Bool-cases (contains t.folders f)) [
  | inl e ↦ rw (e, mkdir) h
  | inr e ↦ rw (e, mkdir, h) (or_true (g == f))
]
  where
    or_true : (b : Bool) → (b || true) ≡ true
    or_true true = refl
    or_true false = refl

-- The four folders of an environment.
pub record HasFolders (machine : Text) (t : Tree) : Type 0 where
  pub watch_there : HasFolder watch t
  pub own_there : HasFolder (in_progress machine) t
  pub processed_there : HasFolder processed t
  pub failed_there : HasFolder Folder.failed t

ensure_dirs-HasFolders : (machine : Text) (t : Tree) → HasFolders machine (ensure_dirs machine t)
unfolding ensure_dirs
ensure_dirs-HasFolders machine t = record {
  watch_there = mkdir-keeps _ _ _ (mkdir-keeps _ _ _ (mkdir-keeps _ _ _ (mkdir-same watch t)));
  own_there = mkdir-keeps _ _ _ (mkdir-keeps _ _ _ (mkdir-same (in_progress machine) _));
  processed_there = mkdir-keeps _ _ _ (mkdir-same processed _);
  failed_there = mkdir-same Folder.failed _;
}

module _ (o : Outside) (r : Runner) (fs : List Folder) where
  abbrev SameFolders : Tree → Type 0
  SameFolders u = u.folders ≡ fs

  rename-SameFolders : (src dst : FilePath) → Preserves SameFolders (rename o.denied src dst)
  unfolding relocated
  rename-SameFolders src dst = record {
    at = λ u h. elim (rename-Moved o.denied src dst u) [
      | stays e failed same ↦ ap (λ (v : Tree). v.folders) same ∙ h
      | moves node here done same ↦ ap (λ (v : Tree). v.folders) same ∙ h
    ];
  }

  recover_one-SameFolders :
      (clock : ℕ) (name : Text) → Preserves SameFolders (recover_one o r clock name)
  unfolding recover_one
  recover_one-SameFolders clock name = search (preserves_rules, rename-SameFolders) depth 8

  recover_all-SameFolders :
      (clock : ℕ) (names : List Text) → Preserves SameFolders (recover_all o r clock names)
  unfolding recover_all
  recover_all-SameFolders clock [] = search preserves_rules
  recover_all-SameFolders clock (name ∷ names) =
      Preserves-bind _ _ (recover_one-SameFolders clock name) (λ recovered.
        Preserves-bind _ _ (recover_all-SameFolders clock names) (λ rest. Preserves-pure _))

  recover_stranded-SameFolders : (clock : ℕ) → Preserves SameFolders (recover_stranded o r clock)
  unfolding recover_stranded
  recover_stranded-SameFolders clock = search (preserves_rules, recover_all-SameFolders) depth 8

-- An environment's tree as the first run finds it: its folders are there, and no scan is stranded.
pub record IsReady (machine : Text) (t : Tree) : Type 0 where
  pub folders : HasFolders machine t
  pub none_stranded :
      (name : Text) → (is_file (at (in_progress machine) name) t && is_supported name) ≡ false

recovered-IsReady :
    (o : Outside) (r : Runner) (clock : ℕ) (t : Tree) (found : List Text)
    → let t0 = ensure_dirs r.machine.name t in
      (recover_stranded o r clock t0).0 ≡ ok found
      → IsReady r.machine.name (recover_stranded o r clock t0).1
recovered-IsReady o r clock t found h =
    let t0 = ensure_dirs r.machine.name t in
    let there = ensure_dirs-HasFolders r.machine.name t in
    let same = (recover_stranded-SameFolders o r t0.folders clock).at t0 refl in
    record {
      folders = record {
        watch_there = ap (λ fs. contains fs watch) same ∙ there.watch_there;
        own_there = ap (λ fs. contains fs (in_progress r.machine.name)) same ∙ there.own_there;
        processed_there = ap (λ fs. contains fs processed) same ∙ there.processed_there;
        failed_there = ap (λ fs. contains fs Folder.failed) same ∙ there.failed_there;
      };
      none_stranded = λ name. recover_stranded_empties o r clock t0 found name there.own_there h;
    }

module _ (resolve : Text → Text) (outside : Environment → Outside) (clock : ℕ)
    (s : AppSettings) where
  abbrev Elsewhere : Text → Environment → Type 0
  Elsewhere q env = resolve env.watch_dir ≢ q

  recover_env-Elsewhere :
      (env : Environment) (d : Disk) (q : Text)
      → Elsewhere q env
      → (recover_env resolve outside clock s env d).1 q ≡ d q
  unfolding recover_env
  recover_env-Elsewhere env d q ne = rw (==-false (resolve env.watch_dir) q ne) refl

  after_first :
      (envs : List Environment) (d : Disk) (q : Text) (r : Result (List Text)) (d1 : Disk)
      → d1 q ≡ d q
      → ((d2 : Disk) → (recover_envs resolve outside clock s envs d2).1 q ≡ d2 q)
      → (proceed (λ _. recover_envs resolve outside clock s envs) r d1).1 q ≡ d q
  after_first envs d q (ok a) d1 same k = k d1 ∙ same
  after_first envs d q (raised e) d1 same k = same

  recover_envs-Elsewhere :
      (envs : List Environment) (d : Disk) (q : Text)
      → All (Elsewhere q) envs
      → (recover_envs resolve outside clock s envs d).1 q ≡ d q
  unfolding recover_envs ◌>>=◌
  recover_envs-Elsewhere [] d q h = refl
  recover_envs-Elsewhere (env ∷ envs) d q h =
      after_first envs d q (recover_env resolve outside clock s env d).0
        (recover_env resolve outside clock s env d).1 (recover_env-Elsewhere env d q h.0)
        (λ d2. recover_envs-Elsewhere envs d2 q h.1)

  recover_env-IsReady :
      (env : Environment) (d : Disk) (found : List Text)
      → (recover_env resolve outside clock s env d).0 ≡ ok found
      → IsReady s.machine.name
          ((recover_env resolve outside clock s env d).1 (resolve env.watch_dir))
  unfolding recover_env
  recover_env-IsReady env d found h = rw (==-refl (resolve env.watch_dir)) (
      recovered-IsReady (outside env) (startup_runner s env) clock (d (resolve env.watch_dir)) found
        h)

  -- Environments with folders of their own are all ready where the recovery returns.
  pub recover_envs-IsReady :
      (envs : List Environment) (d : Disk)
      → Pairwise (λ a b. resolve a.watch_dir ≢ resolve b.watch_dir) envs
      → (recover_envs resolve outside clock s envs d).0 ≡ ok tt
      → All
          (λ env.
            IsReady s.machine.name
              ((recover_envs resolve outside clock s envs d).1 (resolve env.watch_dir)))
          envs
  unfolding recover_envs
  recover_envs-IsReady [] d apart h = tt
  recover_envs-IsReady (env ∷ envs) d apart h =
      let (found, one, next) =
        bind-ok (λ (_ : List Text). recover_envs resolve outside clock s envs) tt
          (recover_env resolve outside clock s env) d h in
      let d1 = (recover_env resolve outside clock s env d).1 in
      let end = ap (λ (x : Result (Unit {0}) × Disk). x.1) next in
      let kept =
        recover_envs-Elsewhere envs d1 (resolve env.watch_dir)
          (All-map _ _ (λ e ne k. ne (sym k)) envs apart.0) in
      let rest =
        recover_envs-IsReady envs d1 apart.1
          (ap (λ (x : Result (Unit {0}) × Disk). x.0) next ∙ h) in
      (
        subst (IsReady s.machine.name)
            (sym kept ∙ ap (λ (d2 : Disk). d2 (resolve env.watch_dir)) end)
            (recover_env-IsReady env d found one),
        subst (λ (d2 : Disk). All (λ e. IsReady s.machine.name (d2 (resolve e.watch_dir))) envs) end
            rest,
      )
