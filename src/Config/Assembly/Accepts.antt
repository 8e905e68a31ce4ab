-- ===== src/Config/Assembly/Accepts.antt =====
-- The settings that `_assemble` accepts.
use pms_scanner.Prelude.{
  ◌≡◌, refl, sym, ap, ◌∙◌, ◌↔◌, ◌⊎◌, map, inl, inr, All-map, codes, ◌==◌, ==-true, ==-refl, Bool,
  ◌||◌, Bool-cases, false, true, none, List, [], ◌∷◌, All, Text, keep_if, contains, nat_eq, text_eq,
  ==-false,
}
use pms_scanner.Machine.{MachineIdentity, strip, is_empty, identify, identity}
use pms_scanner.Config.Options.{Options}
use pms_scanner.Config.{Environment}
use pms_scanner.Config.Assembly.{
  RawSettings, AppSettings, valid, valid_env_names, env_names, build_envs, clash, clash_with,
  clashes, check_distinct, distinct_or, assemble, unknown_in,
}
use pms_scanner.Config.Assembly.Names.{names_of}
use pms_scanner.Config.Assembly.Usable.{IsBuilt}
use pms_scanner.Config.Assembly.Blocks.{IsDescribed, IsBuilt-IsDescribed}
use pms_scanner.Config.Assembly.Valid.{Apart, AllApart, IsValid, assemble_valid}

build_envs-built :
    (raw : RawSettings) (es : List Environment)
    → All (IsBuilt raw) es
    → build_envs raw (names_of es) ≡ valid es
unfolding build_envs
build_envs-built raw [] h = refl
build_envs-built raw (e ∷ es) h = rw (h.0, build_envs-built raw es h.1) refl

known-unknown_in :
    (names : List Text) → All (λ n. contains valid_env_names n ≡ true) names → unknown_in names ≡ []
unfolding keep_if
known-unknown_in [] h = refl
known-unknown_in (n ∷ names) h = rw (h.0, keep_if) (known-unknown_in names h.1)

or_false_right : (b : Bool) → (b || false) ≡ true → b ≡ true
or_false_right true h = refl
or_false_right false h = h

or_true_right : (b : Bool) → (b || (true || false)) ≡ true
or_true_right true = refl
or_true_right false = refl

known_name :
    (n : Text)
    → contains valid_env_names n ≡ true
    → (n ≡ codes "production") ⊎ (n ≡ codes "staging")
known_name n h = elim (Bool-cases (n == codes "production")) [
  | inl e ↦ inl (==-true n (codes "production") e)
  | inr e ↦ inr (==-true n (codes "staging") (or_false_right _ (rw e at h)))
]

name_known :
    (n : Text)
    → (n ≡ codes "production") ⊎ (n ≡ codes "staging")
    → contains valid_env_names n ≡ true
name_known n (inl e) = rw (e, ==-refl (codes "production")) refl
name_known n (inr e) = rw (e, ==-refl (codes "staging")) (or_true_right _)

module _ (resolve : Text → Text) where
  clash-none : (a b : Environment) → Apart resolve a b → clash resolve a b ≡ none
  unfolding clash
  clash-none a b h =
      rw
        (
          ==-false (resolve a.watch_dir) (resolve b.watch_dir) h.0,
          ==-false a.schedule_offset_seconds b.schedule_offset_seconds h.1,
        )
        refl

  clash_with-none :
      (a : Environment) (bs : List Environment)
      → All (Apart resolve a) bs
      → clash_with resolve a bs ≡ none
  unfolding clash_with
  clash_with-none a [] h = refl
  clash_with-none a (b ∷ bs) h = rw (clash-none a b h.0, clash_with) (clash_with-none a bs h.1)

  clashes-none : (es : List Environment) → AllApart resolve es → clashes resolve es ≡ none
  unfolding clashes
  clashes-none [] h = refl
  clashes-none (a ∷ bs) h = rw (clash_with-none a bs h.0, clashes) (clashes-none bs h.1)

  distinct_or-none :
      (machine : MachineIdentity) (options : Options) (es : List Environment)
      → clashes resolve (keep_if (λ e. e.enabled) es) ≡ none
      → distinct_or resolve machine options (valid es)
        ≡ valid (record { machine = machine; environments = es; options = options })
  unfolding check_distinct
  distinct_or-none machine options es h = rw (h, distinct_or) refl

  -- Settings that keep to the rules: a valid name of the machine, known environments, each as its
  -- block describes it, the enabled ones apart, and the other settings as given.
  pub record IsAccepted (raw : RawSettings) (s : AppSettings) : Type 0 where
    pub machine : identify raw.machine_identity ≡ identity s.machine
    pub named : is_empty (strip raw.environments_raw) ≡ false
    pub names : map (λ e. e.name) s.environments ≡ env_names (strip raw.environments_raw)
    pub known :
        All
          (λ n. (n ≡ codes "production") ⊎ (n ≡ codes "staging"))
          (env_names (strip raw.environments_raw))
    pub described : All (IsDescribed raw) s.environments
    pub apart : AllApart resolve (keep_if (λ e. e.enabled) s.environments)
    pub options : s.options ≡ raw.options

  IsValid-IsAccepted :
      (raw : RawSettings) (s : AppSettings) → IsValid resolve raw s → IsAccepted raw s
  IsValid-IsAccepted raw s v = record {
    machine = v.machine;
    named = v.named;
    names = v.names;
    known = All-map _ _ known_name (env_names (strip raw.environments_raw)) v.known;
    described = All-map _ _ (λ e b. (IsBuilt-IsDescribed raw e).0 b) s.environments v.built;
    apart = v.apart;
    options = v.options;
  }

  assemble-IsAccepted :
      (raw : RawSettings) (s : AppSettings) → IsAccepted raw s → assemble resolve raw ≡ valid s
  unfolding assemble
  assemble-IsAccepted raw s v =
      let known =
        known-unknown_in (env_names (strip raw.environments_raw))
          (All-map _ _ name_known _ v.known) in
      let envs =
        ap (build_envs raw) (sym v.names)
        ∙ build_envs-built raw s.environments
            (All-map _ _ (λ e d. (IsBuilt-IsDescribed raw e).1 d) s.environments v.described) in
      let apart = clashes-none (keep_if (λ e. e.enabled) s.environments) v.apart in
      rw (v.machine, assemble)
        (rw (v.named, known, envs)
          (distinct_or-none s.machine raw.options s.environments apart
            ∙ ap (λ o. valid (record s { options = o })) (sym v.options)))

  -- `_assemble` accepts settings as `s` exactly where the machine's name is valid, `ENVIRONMENTS`
  -- is not blank and names, by `env_names`, the environments of `s`, each "production" or
  -- "staging", any two enabled ones differ in the offset and the resolved watch folder, the other
  -- settings are those given, and each environment is as its block describes it: the block is
  -- there with a watch folder, a token that is not blank and an offset from 0 to 59, and the URL,
  -- which is the given one or else the default one of the name, starts with "https://" and is
  -- taken without the slashes at its end.
  pub assemble_accepts :
      (raw : RawSettings) (s : AppSettings) → (assemble resolve raw ≡ valid s) ↔ IsAccepted raw s
  assemble_accepts raw s =
      (λ h. IsValid-IsAccepted raw s (assemble_valid resolve raw s h), assemble-IsAccepted raw s)
