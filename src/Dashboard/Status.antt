-- ===== src/Dashboard/Status.antt =====
-- scanner/dashboard.py: what `/status` shows.
use mathlib.Core.Path.{subst}
use pms_scanner.Prelude.{
  ◌≡◌, refl, sym, inl, inr, some, List, [], ◌∷◌, map, Text, text_eq, ◌==◌, ==-refl, ==-true,
  Bool-cases, All, All-map, ok,
}
use pms_scanner.Prelude.Dict
use pms_scanner.Prelude.Dict.{Dict}
use pms_scanner.Config.{Environment}
use pms_scanner.Config.Assembly.Names.{names_of, All-names}
use pms_scanner.Config.Assembly.{RawSettings, AppSettings, load_settings, valid, clean}
use pms_scanner.Config.Assembly.Usable.{IsBuilt}
use pms_scanner.Config.Assembly.Valid.{assemble_valid}
use pms_scanner.State.{PerEnvRunState, BatchRunState, fresh, new_state}
use pms_scanner.State.Laws.{Update, env_state, calls, own, effects}
use pms_scanner.State.Fresh.{calls-new_state}
use pms_scanner.Runs.Same.{IsBuilt-unique}
use pms_scanner.Dashboard.Entry.{IsEntry, env_status-IsEntry}
use pms_scanner.Dashboard.{
  EnvStatus, StatusPage, done, unconfigured, configure, env_status, env_statuses, ntp_status,
  multi_env_status, status,
}

module _ (raw : RawSettings) (state : BatchRunState) (shown : Text → PerEnvRunState) where
  abbrev Shows : Dict Text EnvStatus → Environment → Type 0
  Shows d e = Dict.lookup e.name d ≡ some (env_status e (shown e.name))

  abbrev entered : Environment → Dict Text EnvStatus → Dict Text EnvStatus
  entered e d = Dict.insert e.name (env_status e (shown e.name)) d

  -- The entries, one after the other.
  filled : List Environment → Dict Text EnvStatus → Dict Text EnvStatus
  filled [] d = d
  filled (e ∷ es) d = filled es (entered e d)

  env_statuses-ok :
      (es : List Environment) (d : Dict Text EnvStatus)
      → All (λ e. env_state e.name state ≡ some (shown e.name)) es
      → env_statuses state es d ≡ ok (filled es d)
  unfolding env_statuses filled
  env_statuses-ok [] d h = refl
  env_statuses-ok (e ∷ es) d h = rw (h.0, env_statuses) (env_statuses-ok es (entered e d) h.1)

  -- An environment's entry outlives those of the others.
  entered-Shows :
      (x e : Environment) (d : Dict Text EnvStatus)
      → IsBuilt raw x
      → IsBuilt raw e
      → Shows d e
      → Shows (entered x d) e
  entered-Shows x e d k h old = elim (Bool-cases (x.name == e.name)) [
    | inl same ↦
        subst (λ (y : Environment). Shows (entered y d) e)
          (sym (IsBuilt-unique raw x e k h (==-true x.name e.name same)))
          (rw (Dict.lookup-insert e.name e.name (env_status e (shown e.name)) d, ==-refl e.name)
            refl)
    | inr other ↦ rw (Dict.lookup-insert x.name e.name (env_status x (shown x.name)) d, other) old
  ]

  filled-Shows :
      (es : List Environment) (e : Environment) (d : Dict Text EnvStatus)
      → All (IsBuilt raw) es
      → IsBuilt raw e
      → Shows d e
      → Shows (filled es d) e
  unfolding filled
  filled-Shows [] e d k h old = old
  filled-Shows (x ∷ es) e d k h old =
      filled-Shows es e (entered x d) k.1 h (entered-Shows x e d k.0 h old)

  filled-All :
      (es : List Environment) (d : Dict Text EnvStatus)
      → All (IsBuilt raw) es
      → All (Shows (filled es d)) es
  unfolding filled
  filled-All [] d k = tt
  filled-All (e ∷ es) d k = (
    filled-Shows es e (entered e d) k.1 k.0 (
        rw (Dict.lookup-insert e.name e.name (env_status e (shown e.name)) d, ==-refl e.name) refl),
    filled-All es (entered e d) k.1,
  )

  pub status-done :
      (s : AppSettings)
      → All (IsBuilt raw) s.environments
      → All (λ e. env_state e.name state ≡ some (shown e.name)) s.environments
      → (page : StatusPage) × (status (configure s state unconfigured) ≡ done page)
        × (page.machine ≡ s.machine.name)
        × All (Shows page.environments) s.environments
  unfolding status configure multi_env_status
  status-done s k h = (
    record {
      machine = s.machine.name;
      ntp = ntp_status s.options.ntp.source state.recent_clock_sync state.last_drift_warning;
      environments = filled s.environments [];
    },
    rw (env_statuses-ok s.environments [] h) refl,
    refl,
    filled-All s.environments [] k,
  )

-- The answer, with each entry as `env_status` makes it of the record after the calls.
pub status_shows_calls :
    (resolve : Text → Text) (raw : RawSettings) (s : AppSettings) (trace : List (Text × Update))
    → load_settings resolve raw ≡ valid s
    → (page : StatusPage) × (status (
          configure s
            (calls trace (new_state s.machine (map (λ e. e.name) s.environments)))
            unconfigured)
        ≡ done page)
      × (page.machine ≡ s.machine.name)
      × All
          (λ e.
            Dict.lookup e.name page.environments
            ≡ some (env_status e (effects (own e.name trace) (fresh s.machine.name e.name))))
          s.environments
unfolding load_settings
status_shows_calls resolve raw s trace h =
    status-done (clean raw) _ (λ name. effects (own name trace) (fresh s.machine.name name)) s
      (assemble_valid resolve (clean raw) s h).built
      (All-names _ s.environments (calls-new_state s.machine (names_of s.environments) trace))

-- Under settings that `load_settings` accepts, and a run state made for their environments,
-- `/status` answers with a page whatever calls the runs have made on that state, in any order of
-- the environments: no lookup raises. The page names the machine, and has for each configured
-- environment an entry with its settings and with what its own calls, and no others, tell. Before
-- the first start the entry shows no run. After it, it shows one run, as the current one where a
-- file was named and else as the last one: with the times that were named last, the file that was
-- named last, the sums of the pages and of the files that were counted, and one error for each
-- that was added.
pub status_is_accurate :
    (resolve : Text → Text) (raw : RawSettings) (s : AppSettings) (trace : List (Text × Update))
    → load_settings resolve raw ≡ valid s
    → (page : StatusPage) × (status (
          configure s
            (calls trace (new_state s.machine (map (λ e. e.name) s.environments)))
            unconfigured)
        ≡ done page)
      × (page.machine ≡ s.machine.name)
      × All
          (λ e.
            (entry : EnvStatus) × (Dict.lookup e.name page.environments ≡ some entry)
            × IsEntry e (own e.name trace) entry)
          s.environments
status_is_accurate resolve raw s trace h =
    let (page, answered, named, all) = status_shows_calls resolve raw s trace h in
    (
      page,
      answered,
      named,
      All-map _ _ (λ e found. (_, found, env_status-IsEntry s.machine.name e (own e.name trace)))
          s.environments all,
    )
