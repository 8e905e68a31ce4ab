-- ===== src/Scheduler/Registered.antt =====
-- Every enabled environment keeps its registration, beside the job at midnight.
use mathlib.Core.Path.{subst}
use mathlib.Core.List.{append-nil, append_assoc}
use pms_scanner.Prelude.{
  ℕ, ◌≤◌, ◌+◌, ◌≡◌, ◌≢◌, refl, sym, ap, ◌∙◌, Bool, true, false, Option, none, List, [], ◌∷◌, ◌++◌,
  map, Text, text_eq, codes, ==-false, All, All-keep_if, Pairwise, append_left_cancel, contains,
  length, length-append, length-map, arith,
}
use pms_scanner.Prelude.Dict
use pms_scanner.Prelude.Dict.{Dict}
use pms_scanner.Config.{Environment}
use pms_scanner.Config.Assembly.Names.{All-names}
use pms_scanner.Config.Assembly.{
  RawSettings, AppSettings, load_settings, valid, clean, valid_env_names,
}
use pms_scanner.Config.Assembly.Usable.{IsBuilt}
use pms_scanner.Config.Assembly.Valid.{Apart, AllApart, assemble_valid}
use pms_scanner.Scheduler.{JobSpec, job_of, enabled_environments, build_jobs}
use pms_scanner.Scheduler.Register.{
  Job, poll_job, add_polls, daily_job, daily_reset_job_id, new_scheduler, register, pool_size,
}
use pms_scanner.Runs.Same.{IsBuilt-unique}

abbrev Differ : JobSpec → JobSpec → Type 0
Differ a b = a.job_id ≢ b.job_id

module _ (immediate : Bool) (every : Option ℕ) where
  abbrev entry : JobSpec → Text × Job
  entry spec = (spec.job_id, poll_job immediate every spec)

  abbrev Fresh : Dict Text Job → JobSpec → Type 0
  Fresh jobs spec = Dict.lookup spec.job_id jobs ≡ none

  insert-Fresh :
      (spec next : JobSpec) (jobs : Dict Text Job)
      → Differ spec next
      → Fresh jobs next
      → Fresh (Dict.insert spec.job_id (poll_job immediate every spec) jobs) next
  insert-Fresh spec next jobs d h =
      rw
        (
          Dict.lookup-insert spec.job_id next.job_id (poll_job immediate every spec) jobs,
          ==-false spec.job_id next.job_id d,
        )
        h

  both-Fresh :
      (spec : JobSpec) (specs : List JobSpec) (jobs : Dict Text Job)
      → All (Differ spec) specs
      → All (Fresh jobs) specs
      → All (Fresh (Dict.insert spec.job_id (poll_job immediate every spec) jobs)) specs
  both-Fresh spec [] jobs d h = tt
  both-Fresh spec (next ∷ specs) jobs d h =
      (insert-Fresh spec next jobs d.0 h.0, both-Fresh spec specs jobs d.1 h.1)

  -- Specs with ids of their own are all added, in order.
  add_polls_lem :
      (specs : List JobSpec) (jobs : Dict Text Job)
      → Pairwise Differ specs
      → All (Fresh jobs) specs
      → add_polls immediate every specs jobs ≡ jobs ++ map entry specs
  unfolding add_polls
  add_polls_lem [] jobs d h = sym (append-nil jobs)
  add_polls_lem (spec ∷ specs) jobs d h =
      add_polls_lem specs _ d.1 (both-Fresh spec specs jobs d.0 h.1)
      ∙ ap (λ js. js ++ map entry specs) (Dict.insert_absent spec.job_id _ jobs h.0)
      ∙ append_assoc jobs (entry spec ∷ []) (map entry specs)

  lookup-entries :
      (id : Text) (specs : List JobSpec)
      → All (λ spec. spec.job_id ≢ id) specs
      → Dict.lookup id (map entry specs) ≡ none
  unfolding Dict.lookup
  lookup-entries id [] h = refl
  lookup-entries id (spec ∷ specs) h =
      rw (==-false spec.job_id id h.0, Dict.lookup) (lookup-entries id specs h.1)

abbrev after_first : Text → Text
after_first [] = []
after_first (c ∷ s) = s

-- Ids of one machine differ where the names do.
id_ne : (machine a b : Text) → a ≢ b → machine ++ b':' ∷ a ≢ machine ++ b':' ∷ b
id_ne machine a b h e = h (ap after_first (append_left_cancel machine (b':' ∷ a) (b':' ∷ b) e))

not_valid : contains valid_env_names (codes "daily-reset") ≡ false
not_valid =
    rw
      (
        ==-false {A = Text} (codes "daily-reset") (codes "production") (λ e. cc),
        ==-false {A = Text} (codes "daily-reset") (codes "staging") (λ e. cc),
      )
      refl

valid_ne : (name : Text) → contains valid_env_names name ≡ true → name ≢ codes "daily-reset"
valid_ne name h e = true_ne (sym h ∙ ap (contains valid_env_names) e ∙ not_valid)
  where
    true_ne : true ≡ false → ⊥
    true_ne k = cc

module _ (resolve : Text → Text) (raw : RawSettings) (machine : Text) where
  names-Differ :
      (a : Environment) (es : List Environment)
      → IsBuilt raw a
      → All (IsBuilt raw) es
      → All (Apart resolve a) es
      → All (Differ (job_of machine a)) (map (job_of machine) es)
  names-Differ a [] k ks h = tt
  names-Differ a (b ∷ es) k ks h = (
    id_ne machine a.name b.name (λ same.
        h.0.0 (ap (λ (e : Environment). resolve e.watch_dir) (IsBuilt-unique raw a b k ks.0 same))),
    names-Differ a es k ks.1 h.1,
  )

  jobs-Differ :
      (es : List Environment)
      → All (IsBuilt raw) es
      → AllApart resolve es
      → Pairwise Differ (map (job_of machine) es)
  jobs-Differ [] ks h = tt
  jobs-Differ (a ∷ es) ks h = (names-Differ a es ks.0 ks.1 h.0, jobs-Differ es ks.1 h.1)

none_daily :
    (machine : Text) (es : List Environment)
    → All (λ e. contains valid_env_names e.name ≡ true) es
    → All
        (λ (spec : JobSpec). spec.job_id ≢ machine ++ codes ":daily-reset")
        (map (job_of machine) es)
none_daily machine [] h = tt
none_daily machine (e ∷ es) h =
    (id_ne machine e.name (codes "daily-reset") (valid_ne e.name h.0), none_daily machine es h.1)

all-Fresh :
    (immediate : Bool) (every : Option ℕ) (specs : List JobSpec)
    → All (Fresh immediate every []) specs
unfolding Dict.lookup
all-Fresh immediate every [] = tt
all-Fresh immediate every (spec ∷ specs) = (refl, all-Fresh immediate every specs)

jobs_fit : (n : ℕ) → n + 1 ≤ pool_size n
jobs_fit n = ground arith

-- Under settings that `load_settings` accepts, `register` of a new scheduler with a run state
-- leaves exactly the job of each enabled environment, in order, and the job at midnight: no
-- registration replaces another, whatever trigger was asked for. They are at most as many as the
-- threads of the pool.
pub register_keeps_all :
    (resolve : Text → Text) (raw : RawSettings) (s : AppSettings) (immediate : Bool)
    (every : Option ℕ)
    → load_settings resolve raw ≡ valid s
    → let sched = register immediate every (new_scheduler s true) in
      (sched.jobs
        ≡ map (λ spec. (spec.job_id, poll_job immediate every spec)) (build_jobs s)
          ++ (daily_reset_job_id s, daily_job) ∷ [])
      × (length sched.jobs ≤ sched.max_workers)
unfolding register new_scheduler load_settings build_jobs
register_keeps_all resolve raw s immediate every h =
    let good = assemble_valid resolve (clean raw) s h in
    let es = enabled_environments s in
    let specs = map (job_of s.machine.name) es in
    let built = All-keep_if _ (λ (e : Environment). e.enabled) s.environments good.built in
    let known =
      All-keep_if _ (λ (e : Environment). e.enabled) s.environments
        (All-names (λ n. contains valid_env_names n ≡ true) s.environments
          (subst (All (λ n. contains valid_env_names n ≡ true)) (sym good.names) good.known)) in
    let polls =
      add_polls_lem immediate every specs []
        (jobs-Differ resolve (clean raw) s.machine.name es built good.apart)
        (all-Fresh immediate every specs) in
    let all =
      ap (Dict.insert (daily_reset_job_id s) daily_job) polls
      ∙ Dict.insert_absent (daily_reset_job_id s) daily_job _
          (lookup-entries immediate every _ specs (none_daily s.machine.name es known)) in
    (
      all,
      rw all (
          omega (
            arith,
            length-append (map (entry immediate every) specs)
                ((daily_reset_job_id s, daily_job) ∷ []),
            length-map (entry immediate every) specs,
            length-map (job_of s.machine.name) es,
            jobs_fit (length es),
          )),
    )
