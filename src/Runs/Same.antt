-- ===== src/Runs/Same.antt =====
-- Every job runs the environment that it was made for.
use mathlib.Core.Path.{subst}
use mathlib.Core.Option.{some-injective, none-ne-some}
use pms_scanner.Prelude.{
  ℕ, zero, suc, ◌≡◌, refl, sym, ap, ◌∙◌, inl, inr, some, List, [], ◌∷◌, map, All, Text, text_eq,
  ◌==◌, ==-true, ==-refl, Bool-cases, get_elem?, All-get_elem?, get_elem?-All, All-keep_if,
}
use pms_scanner.Config.{Environment}
use pms_scanner.Config.Assembly.{
  RawSettings, AppSettings, Outcome, valid, refused, load_settings, build_env, block_of, clean,
}
use pms_scanner.Config.Assembly.Usable.{IsBuilt}
use pms_scanner.Config.Assembly.Valid.{assemble_valid}
use pms_scanner.Scheduler.{job_of, enabled_environments, build_jobs}
use pms_scanner.Runs.{find_env, scheduled_runner, default_run_env, dispatch}

abbrev env_of : Environment → Outcome Environment → Environment
env_of d (valid e) = e
env_of d (refused _) = d

-- Two environments of one name, built from the same settings, are one.
pub IsBuilt-unique :
    (raw : RawSettings) (a b : Environment)
    → IsBuilt raw a
    → IsBuilt raw b
    → a.name ≡ b.name
    → a ≡ b
IsBuilt-unique raw a b h k e =
    ap (env_of a) (sym h ∙ subst (λ (n : Text). build_env n (block_of raw n) ≡ valid b) (sym e) k)

-- The search by name finds the environment itself.
find_env-built :
    (raw : RawSettings) (es : List Environment) (e : Environment)
    → All (IsBuilt raw) es
    → IsBuilt raw e
    → (i : ℕ) → get_elem? es i ≡ some e
    → find_env e.name es ≡ some e
unfolding find_env
find_env-built raw [] e hs h i at = absurd (none-ne-some e at)
find_env-built raw (x ∷ es) e hs h zero at = rw (some-injective x e at, ==-refl e.name) refl
find_env-built raw (x ∷ es) e hs h (suc i) at = elim (Bool-cases (x.name == e.name)) [
  | inl same ↦ rw same (ap some (IsBuilt-unique raw x e hs.0 h (==-true x.name e.name same)))
  | inr other ↦ rw other (find_env-built raw es e hs.1 h i at)
]

pub find_env-All :
    (raw : RawSettings) (es : List Environment)
    → All (IsBuilt raw) es
    → All (λ e. find_env e.name es ≡ some e) es
find_env-All raw es h =
    get_elem?-All _ es
      (λ i e at. find_env-built raw es e h (All-get_elem? (IsBuilt raw) es i e h at) i at)

jobs_run :
    (s : AppSettings) (es : List Environment)
    → All (λ e. find_env e.name s.environments ≡ some e) es
    → map (λ j. dispatch s j.env_name) (map (job_of s.machine.name) es)
      ≡ map (λ e. some (scheduled_runner s e)) es
unfolding default_run_env
jobs_run s [] h = refl
jobs_run s (e ∷ es) h = rw (h.0, jobs_run s es h.1) refl

-- Under settings that `load_settings` accepts, the jobs of `build_jobs` start, in their order, one
-- run for each enabled environment, and it is a run of that very environment: no search by name
-- fails or finds another one.
pub jobs_run_their_environments :
    (resolve : Text → Text) (raw : RawSettings) (s : AppSettings)
    → load_settings resolve raw ≡ valid s
    → map (λ j. dispatch s j.env_name) (build_jobs s)
      ≡ map (λ e. some (scheduled_runner s e)) (enabled_environments s)
unfolding load_settings build_jobs
jobs_run_their_environments resolve raw s h = jobs_run s (enabled_environments s) (
    All-keep_if _ (λ e. e.enabled) s.environments
      (find_env-All (clean raw) s.environments (assemble_valid resolve (clean raw) s h).built))
