-- ===== src/Dashboard/Trigger.antt =====
-- scanner/dashboard.py: the runs that `POST /run` starts.
use pms_scanner.Prelude.{
  ℕ, suc, ◌≡◌, refl, sym, ◌∙◌, ap, ◌⊎◌, inl, inr, Bool, true, false, none, some, List, [], ◌∷◌, map,
  Text, text_eq, ◌==◌, ==-true, Bool-cases, All, All-keep_if, contains, get_elem?, arith,
}
use pms_scanner.Prelude.Dict
use pms_scanner.Config.{Environment}
use pms_scanner.Config.Assembly.{RawSettings, AppSettings, load_settings, valid, clean}
use pms_scanner.Config.Assembly.Valid.{assemble_valid}
use pms_scanner.State.{BatchRunState}
use pms_scanner.Scheduler.{enabled_environments, job_of, build_jobs}
use pms_scanner.Batch.World.{Runner}
use pms_scanner.Runs.{find_env, manual_runner, run_env_once, dispatch}
use pms_scanner.Runs.Same.{find_env-All, jobs_run_their_environments}
use pms_scanner.Dashboard.{
  Started, not_found, done, unconfigured, configure, gather, run_ids_of, manual_run,
}

gather-All :
    (returns : Runner → Bool) (s : AppSettings) (es : List Environment)
    → All (λ e. find_env e.name s.environments ≡ some e) es
    → ((r : Runner) → returns r ≡ true)
    → gather returns s (map (λ e. e.name) es) ≡ some (map (manual_runner s) es)
unfolding gather run_env_once
gather-All returns s [] h k = refl
gather-All returns s (e ∷ es) h k =
    rw (h.0, k (manual_runner s e), gather-All returns s es h.1 k) refl

triggered-jobs :
    (machine : Text) (es : List Environment)
    → map (λ e. e.name) es ≡ map (λ j. j.env_name) (map (job_of machine) es)
triggered-jobs machine [] = refl
triggered-jobs machine (e ∷ es) = ap (λ ns. e.name ∷ ns) (triggered-jobs machine es)

map-some :
    (f : Environment → Runner) (es : List Environment)
    → map some (map f es) ≡ map (λ e. some (f e)) es
map-some f [] = refl
map-some f (e ∷ es) = ap (λ rs. some (f e) ∷ rs) (map-some f es)

-- Under settings that `load_settings` accepts, and if the runs return, `POST /run` without a
-- parameter is answered by 202 and starts exactly the runs that the jobs of the schedule start, in
-- their order, and it names their environments.
pub run_all_is_schedule :
    (run_id : Text → Text) (returns : Runner → Bool) (resolve : Text → Text) (raw : RawSettings)
    (s : AppSettings) (state : BatchRunState)
    → ((r : Runner) → returns r ≡ true)
    → load_settings resolve raw ≡ valid s
    → (a : Started) × (manual_run run_id returns (configure s state unconfigured) none ≡ done a)
      × (a.triggered ≡ map (λ j. j.env_name) (build_jobs s))
      × (map some a.runners ≡ map (λ j. dispatch s j.env_name) (build_jobs s))
unfolding manual_run configure build_jobs load_settings
run_all_is_schedule run_id returns resolve raw s state k h =
    let found =
      All-keep_if _ (λ e. e.enabled) s.environments
        (find_env-All (clean raw) s.environments (assemble_valid resolve (clean raw) s h).built) in
    let names = map (λ e. e.name) (enabled_environments s) in
    (
      record {
        machine = s.machine.name;
        triggered = names;
        runners = map (manual_runner s) (enabled_environments s);
        run_ids = run_ids_of run_id names [];
      },
      rw (gather-All returns s (enabled_environments s) found k) refl,
      triggered-jobs s.machine.name (enabled_environments s),
      map-some (manual_runner s) (enabled_environments s)
          ∙ sym (jobs_run_their_environments resolve raw s h),
    )

-- An environment of a list that the search by name finds.
record IsFound (name : Text) (es : List Environment) : Type 0 where
  env : Environment
  place : ℕ
  there : get_elem? es place ≡ some env
  named : env.name ≡ name
  first : find_env name es ≡ some env

contains-IsFound :
    (name : Text) (es : List Environment)
    → contains (map (λ e. e.name) es) name ≡ true
    → IsFound name es
unfolding find_env
contains-IsFound name [] h = cc
contains-IsFound name (e ∷ es) h = elim (Bool-cases (e.name == name)) [
  | inl same ↦ record {
    env = e;
    place = 0;
    there = refl;
    named = ==-true e.name name same;
    first = rw same refl;
  }
  | inr other ↦
      let f = contains-IsFound name es (later other) in
      record {
        env = f.env;
        place = suc f.place;
        there = f.there;
        named = f.named;
        first = rw other f.first;
      }
]
  where
    later : (e.name == name) ≡ false → contains (map (λ e. e.name) es) name ≡ true
    later other = ground arith

-- If the runs return, `POST /run?environment=<name>` starts exactly one run, of an environment of
-- the settings with that name, enabled or not, or, where no environment has the name, is answered
-- by 404 and starts none.
pub run_one_by_name :
    (run_id : Text → Text) (returns : Runner → Bool) (s : AppSettings) (state : BatchRunState)
    (name : Text)
    → ((r : Runner) → returns r ≡ true)
    → ((contains (map (λ e. e.name) s.environments) name ≡ false)
        × (manual_run run_id returns (configure s state unconfigured) (some name) ≡ not_found name))
      ⊎ ((place : ℕ) × (env : Environment) × (get_elem? s.environments place ≡ some env)
          × (env.name ≡ name)
          × (manual_run run_id returns (configure s state unconfigured) (some name)
              ≡ done (record {
                machine = s.machine.name;
                triggered = name ∷ [];
                runners = manual_runner s env ∷ [];
                run_ids = (name, run_id name) ∷ [];
              })))
unfolding manual_run configure gather run_env_once run_ids_of Dict.insert
run_one_by_name run_id returns s state name k =
    elim (Bool-cases (contains (map (λ e. e.name) s.environments) name)) [
      | inl known ↦
          let f = contains-IsFound name s.environments known in
          inr
            (f.place, f.env, f.there, f.named, rw (known, f.first, k (manual_runner s f.env)) refl)
      | inr unknown ↦ inl (unknown, rw unknown refl)
    ]
