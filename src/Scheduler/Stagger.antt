-- ===== src/Scheduler/Stagger.antt =====
-- The jobs of accepted settings do not coincide.
use pms_scanner.Prelude.{
  ℕ, ◌≤◌, ◌≡◌, refl, ap, sym, ◌∙◌, inl, inr, List, [], ◌∷◌, map, All, Text, Bool-cases, keep_if,
  length, ◌==◌, ==-true, ==-false, nat_eq, arith,
}
use pms_scanner.Config.{Environment}
use pms_scanner.Config.Assembly.{RawSettings, AppSettings, assemble, valid}
use pms_scanner.Config.Assembly.Usable.{IsUsable}
use pms_scanner.Config.Assembly.Valid.{Apart, AllApart, assemble_valid}
use pms_scanner.Scheduler.{JobSpec, enabled_environments, job_of, build_jobs}

-- The jobs whose trigger fires at this second of every minute.
unfoldable pub due : ℕ → List JobSpec → List JobSpec
due second jobs = keep_if (λ j. j.second == second) jobs

module _ (resolve : Text → Text) (machine : Text) (second : ℕ) where
  due_none :
      (a : Environment) (es : List Environment)
      → a.schedule_offset_seconds ≡ second
      → All (Apart resolve a) es
      → due second (map (job_of machine) es) ≡ []
  unfolding due keep_if
  due_none a [] e h = refl
  due_none a (b ∷ es) e h =
      rw (==-false b.schedule_offset_seconds second (λ same. h.0.1 (e ∙ sym same)), due, keep_if)
        (due_none a es e h.1)

  due_one :
      (es : List Environment)
      → AllApart resolve es
      → length (due second (map (job_of machine) es)) ≤ 1
  unfolding due keep_if
  due_one [] h = omega arith
  due_one (a ∷ es) h = elim (Bool-cases (a.schedule_offset_seconds == second)) [
    | inl e ↦
        let no_other = ap length (due_none a es (==-true a.schedule_offset_seconds second e) h.0) in
        rw (e, due, keep_if) (omega (arith, no_other))
    | inr e ↦ rw (e, due, keep_if) (due_one es h.1)
  ]

jobs_in_minute :
    (machine : Text) (es : List Environment)
    → All IsUsable es
    → All (λ j. j.second ≤ 59) (map (job_of machine) (keep_if (λ e. e.enabled) es))
unfolding keep_if
jobs_in_minute machine [] h = tt
jobs_in_minute machine (e ∷ es) h = elim (Bool-cases e.enabled) [
  | inl on ↦ rw on (h.0.offset, jobs_in_minute machine es h.1)
  | inr off ↦ rw off (jobs_in_minute machine es h.1)
]

-- The jobs that `build_jobs` makes of settings that `_assemble` accepts are staggered: each fires
-- at a second that every minute has, and at no second fires more than one.
pub jobs_are_staggered :
    (resolve : Text → Text) (raw : RawSettings) (s : AppSettings)
    → assemble resolve raw ≡ valid s
    → All (λ j. j.second ≤ 59) (build_jobs s)
      × ((second : ℕ) → length (due second (build_jobs s)) ≤ 1)
unfolding build_jobs
jobs_are_staggered resolve raw s h =
    let ok = assemble_valid resolve raw s h in
    (
      jobs_in_minute s.machine.name s.environments ok.usable,
      λ second. due_one resolve s.machine.name second (enabled_environments s) ok.apart,
    )
