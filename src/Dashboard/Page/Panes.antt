-- ===== src/Dashboard/Page/Panes.antt =====
-- scanner/dashboard.py: the panes that `refresh` leaves, one for each entry of `/status`.
use mathlib.Core.Path.{subst}
use pms_scanner.Prelude.{
  ◌≡◌, refl, sym, ap, ◌∙◌, inl, inr, Bool-cases, some, List, [], ◌∷◌, map, Text, text_eq, ◌==◌,
  ==-refl, ==-true, All, All-map, Listed,
}
use pms_scanner.Prelude.Int.{ℤ}
use pms_scanner.Prelude.Dict
use pms_scanner.Prelude.Dict.{Dict}
use pms_scanner.Config.Assembly.{RawSettings, AppSettings, load_settings, valid}
use pms_scanner.State.{fresh, new_state}
use pms_scanner.State.Laws.{Update, calls, own, effects}
use pms_scanner.Dashboard.{EnvStatus, StatusPage, done, unconfigured, configure, env_status, status}
use pms_scanner.Dashboard.Status.{status_shows_calls}
use pms_scanner.Dashboard.Page.{Page, build_pane, build_panes, refresh}

module _ {V : Type 0} (x : Text) where
  keys-Listed : (d : Dict Text V) (v : V) → Dict.lookup x d ≡ some v → Listed x (Dict.keys d)
  unfolding Dict.lookup
  keys-Listed [] v h = cc
  keys-Listed ((k, w) ∷ d) v h = elim (Bool-cases (k == x)) [
    | inl e ↦ inl (==-true k x e)
    | inr e ↦ inr (keys-Listed d v (rw (e, Dict.lookup) at h))
  ]

  Listed-keys : (d : Dict Text V) → Listed x (Dict.keys d) → (v : V) × (Dict.lookup x d ≡ some v)
  unfolding Dict.lookup
  Listed-keys [] l = absurd l
  Listed-keys ((k, w) ∷ d) l = elim (Bool-cases (k == x)) [
    | inl e ↦ (w, rw e refl)
    | inr e ↦ elim l [
      | inl same ↦ (w, rw (same, ==-refl x) refl)
      | inr rest ↦ rw e (Listed-keys d rest)
    ]
  ]

build_panes-cons :
    (envs : Dict Text EnvStatus) (name : Text) (names : List Text) (env : EnvStatus)
    → Dict.lookup name envs ≡ some env
    → build_panes envs (name ∷ names) ≡ build_pane name env ∷ build_panes envs names
unfolding build_panes
build_panes-cons envs name names env e = rw (e, build_panes) refl

-- A pane for each name, where every name has an entry.
build_panes-Listed :
    (envs : Dict Text EnvStatus) (names : List Text) (name : Text) (env : EnvStatus)
    → ((x : Text) → Listed x names → Listed x (Dict.keys envs))
    → Dict.lookup name envs ≡ some env
    → Listed name names
    → Listed (build_pane name env) (build_panes envs names)
build_panes-Listed envs [] name env known here l = absurd l
build_panes-Listed envs (n ∷ names) name env known here l = elim l [
  | inl same ↦
      subst (λ ps. Listed (build_pane name env) ps)
        (sym (
          build_panes-cons envs n names env
            (subst (λ x. Dict.lookup x envs ≡ some env) (sym same) here)))
        (inl (ap (λ x. build_pane x env) same))
  | inr rest ↦
      let (v, e) = Listed-keys n envs (known n (inl refl)) in
      subst (λ ps. Listed (build_pane name env) ps) (sym (build_panes-cons envs n names v e))
        (inr (build_panes-Listed envs names name env (λ x k. known x (inr k)) here rest))
]

refresh-done :
    (fixed : ℤ → Text) (sort : List Text → List Text) (shown : StatusPage) (page : Page)
    → (refresh fixed sort (done shown) page).panes
      ≡ build_panes shown.environments (sort (Dict.keys shown.environments))
unfolding refresh
refresh-done fixed sort shown page = refl

-- The page that `refresh` leaves has the panes of the entries.
pub panes_shown :
    (fixed : ℤ → Text) (sort : List Text → List Text) (resolve : Text → Text) (raw : RawSettings)
    (s : AppSettings) (trace : List (Text × Update)) (page : Page)
    → ((names : List Text) (x : Text) → Listed x names → Listed x (sort names))
    → ((names : List Text) (x : Text) → Listed x (sort names) → Listed x names)
    → load_settings resolve raw ≡ valid s
    → let answer = status (
        configure s
          (calls trace (new_state s.machine (map (λ e. e.name) s.environments)))
          unconfigured) in
      All
        (λ e.
          Listed
            (build_pane e.name
              (env_status e (effects (own e.name trace) (fresh s.machine.name e.name))))
            (refresh fixed sort answer page).panes)
        s.environments
panes_shown fixed sort resolve raw s trace page keeps adds h =
    let (shown, answered, named, all) = status_shows_calls resolve raw s trace h in
    let same =
      ap (λ a. (refresh fixed sort a page).panes) answered ∙ refresh-done fixed sort shown page in
    All-map _ _
      (λ e here.
        subst
          (λ ps.
            Listed
              (build_pane e.name
                (env_status e (effects (own e.name trace) (fresh s.machine.name e.name))))
              ps)
          (sym same)
          (build_panes-Listed shown.environments (sort (Dict.keys shown.environments)) e.name _
            (adds (Dict.keys shown.environments)) here
            (keeps (Dict.keys shown.environments) e.name
              (keys-Listed e.name shown.environments _ here))))
      s.environments all
