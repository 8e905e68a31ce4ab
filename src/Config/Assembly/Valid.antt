-- ===== src/Config/Assembly/Valid.antt =====
-- What settings that `_assemble` accepts are.
use mathlib.Core.Path.{subst}
use pms_scanner.Prelude.{
  ◌≡◌, ◌≢◌, refl, inl, inr, true, false, Option, none, some, List, [], ◌∷◌, map, All, Text, keep_if,
  contains, nat_eq, text_eq, if◌then◌else◌, Bool-cases, Option-cases, arith,
}
use pms_scanner.Machine.{strip, is_empty, MachineIdentity, Identified, identity, invalid, identify}
use pms_scanner.Config.{Environment}
use pms_scanner.Config.Assembly.{
  RawSettings, AppSettings, ConfigError, Outcome, valid, refused, valid_env_names, env_names,
  build_envs, clash, clash_with, clashes, check_distinct, distinct_or, assemble, unknown_in,
  bad_machine, no_environments, unknown_environments,
}
use pms_scanner.Config.Assembly.Usable.{IsUsable, IsBuilt, some_ne_none, EnvsIf, build_envs-EnvsIf}

-- Two environments with folders and offsets of their own.
abbrev pub Apart : (Text → Text) → Environment → Environment → Type 0
Apart resolve a b =
    (resolve a.watch_dir ≢ resolve b.watch_dir)
    × (a.schedule_offset_seconds ≢ b.schedule_offset_seconds)

abbrev pub AllApart : (Text → Text) → List Environment → Type 0
AllApart resolve [] = Unit
AllApart resolve (a ∷ bs) = All (Apart resolve a) bs × AllApart resolve bs

cons_ne_nil : {n : Text} {ns : List Text} → n ∷ ns ≡ [] → ⊥
cons_ne_nil h = cc

module _ (resolve : Text → Text) where
  clash-Apart : (a b : Environment) → clash resolve a b ≡ none → Apart resolve a b
  unfolding clash
  clash-Apart a b h = ground arith

  clash_with-All :
      (a : Environment) (bs : List Environment)
      → clash_with resolve a bs ≡ none
      → All (Apart resolve a) bs
  unfolding clash_with
  clash_with-All a [] h = tt
  clash_with-All a (b ∷ bs) h = elim (Option-cases (clash resolve a b)) [
    | inl e ↦ (clash-Apart a b e, clash_with-All a bs (rw (e, clash_with) at h))
    | inr (f, e) ↦ absurd (some_ne_none f (rw (e, clash_with) at h))
  ]

  clashes-AllApart : (es : List Environment) → clashes resolve es ≡ none → AllApart resolve es
  unfolding clashes
  clashes-AllApart [] h = tt
  clashes-AllApart (a ∷ bs) h = elim (Option-cases (clash_with resolve a bs)) [
    | inl e ↦ (clash_with-All a bs e, clashes-AllApart bs (rw (e, clashes) at h))
    | inr (f, e) ↦ absurd (some_ne_none f (rw (e, clashes) at h))
  ]

-- Names that `unknown_in` does not report.
unknown-none :
    (names : List Text) → unknown_in names ≡ [] → All (λ n. contains valid_env_names n ≡ true) names
unfolding keep_if
unknown-none [] h = tt
unknown-none (n ∷ names) h = elim (Bool-cases (contains valid_env_names n)) [
  | inl e ↦ (e, unknown-none names (rw (e, keep_if) at h))
  | inr e ↦ absurd (cons_ne_nil (rw (e, keep_if) at h))
]

module _ (resolve : Text → Text) where
  -- The settings that `_assemble` makes.
  pub record IsValid (raw : RawSettings) (s : AppSettings) : Type 0 where
    pub machine : identify raw.machine_identity ≡ identity s.machine
    pub named : is_empty (strip raw.environments_raw) ≡ false
    pub names : map (λ e. e.name) s.environments ≡ env_names (strip raw.environments_raw)
    pub known :
        All (λ n. contains valid_env_names n ≡ true) (env_names (strip raw.environments_raw))
    pub usable : All IsUsable s.environments
    pub built : All (IsBuilt raw) s.environments
    pub apart : AllApart resolve (keep_if (λ e. e.enabled) s.environments)
    pub options : s.options ≡ raw.options

  abbrev ValidIf : RawSettings → Outcome AppSettings → Type 0
  ValidIf raw (refused e) = Unit {0}
  ValidIf raw (valid s) = IsValid raw s

  checked-ValidIf :
      (raw : RawSettings) (machine : MachineIdentity) (envs : List Environment)
      (found : Option ConfigError)
      → check_distinct resolve envs ≡ found
      → identify raw.machine_identity ≡ identity machine
      → is_empty (strip raw.environments_raw) ≡ false
      → All (λ n. contains valid_env_names n ≡ true) (env_names (strip raw.environments_raw))
      → EnvsIf raw (env_names (strip raw.environments_raw)) (valid envs)
      → ValidIf raw (elim found [
        | none ↦ valid (record { machine = machine; environments = envs; options = raw.options })
        | some e ↦ refused e
      ])
  unfolding check_distinct
  checked-ValidIf raw machine envs (some e) c h w k u = tt
  checked-ValidIf raw machine envs none c h w k u = record {
    machine = h;
    named = w;
    names = u.0;
    known = k;
    usable = u.1;
    built = u.2;
    apart = clashes-AllApart resolve (keep_if (λ e. e.enabled) envs) c;
    options = refl;
  }

  distinct_or-ValidIf :
      (raw : RawSettings) (machine : MachineIdentity) (envs : Outcome (List Environment))
      → identify raw.machine_identity ≡ identity machine
      → is_empty (strip raw.environments_raw) ≡ false
      → All (λ n. contains valid_env_names n ≡ true) (env_names (strip raw.environments_raw))
      → EnvsIf raw (env_names (strip raw.environments_raw)) envs
      → ValidIf raw (distinct_or resolve machine raw.options envs)
  distinct_or-ValidIf raw machine (refused e) h w k u = tt
  distinct_or-ValidIf raw machine (valid envs) h w k u =
      checked-ValidIf raw machine envs (check_distinct resolve envs) refl h w k u

  known-ValidIf :
      (raw : RawSettings) (machine : MachineIdentity) (unknown : List Text)
      → identify raw.machine_identity ≡ identity machine
      → is_empty (strip raw.environments_raw) ≡ false
      → unknown_in (env_names (strip raw.environments_raw)) ≡ unknown
      → ValidIf raw (elim unknown [
        | n ∷ ns ↦ refused (unknown_environments (n ∷ ns))
        | [] ↦
            distinct_or resolve machine raw.options
              (build_envs raw (env_names (strip raw.environments_raw)))
      ])
  known-ValidIf raw machine [] h w e =
      distinct_or-ValidIf raw machine _ h w (unknown-none _ e) (build_envs-EnvsIf raw _)
  known-ValidIf raw machine (n ∷ ns) h w e = tt

  named-ValidIf :
      (raw : RawSettings) (found : Identified)
      → identify raw.machine_identity ≡ found
      → ValidIf raw (elim found [
        | invalid e ↦ refused (bad_machine e)
        | identity machine ↦
            if is_empty (strip raw.environments_raw)
            then refused no_environments
            else elim (unknown_in (env_names (strip raw.environments_raw))) [
              | n ∷ ns ↦ refused (unknown_environments (n ∷ ns))
              | [] ↦
                  distinct_or resolve machine raw.options
                    (build_envs raw (env_names (strip raw.environments_raw)))
            ]
      ])
  named-ValidIf raw (invalid e) h = tt
  named-ValidIf raw (identity machine) h =
      elim (Bool-cases (is_empty (strip raw.environments_raw))) [
        | inl e ↦ rw e tt
        | inr e ↦ rw e (known-ValidIf raw machine _ h e refl)
      ]

  -- Settings that `_assemble` accepts have a valid machine name and the environments of
  -- `ENVIRONMENTS`, which is not blank, in that order, all of them known. Each is built from its
  -- block, and has a token that is not blank, a URL that starts with `https:` and an offset of at
  -- most 59; any two enabled ones differ in the offset and in the resolved watch folder.
  pub assemble_valid :
      (raw : RawSettings) (s : AppSettings) → assemble resolve raw ≡ valid s → IsValid raw s
  unfolding assemble
  assemble_valid raw s h =
      subst (ValidIf raw) h (named-ValidIf raw (identify raw.machine_identity) refl)
