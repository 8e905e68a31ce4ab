-- ===== src/Config/Assembly/Usable.antt =====
-- What environments that `_build_env` accepts are.
use mathlib.Core.Option.{some-injective}
use mathlib.Core.Path.{subst}
use pms_scanner.Prelude.{
  and_true, ℕ, ◌≤◌, ◌≡◌, refl, sym, inl, inr, true, false, Option, none, some, List, [], ◌∷◌, map,
  All, Text, codes, ◌==◌, ==-true, ◌++◌, nat_eq, text_eq, Bool-cases, Option-cases, arith,
}
use pms_scanner.Prelude.Int.{ℤ, pos, negsuc}
use pms_scanner.Machine.{strip, is_empty}
use pms_scanner.Prelude.Texts.{starts_with}
use pms_scanner.Config.{Environment}
use pms_scanner.Config.Assembly.{
  EnvBlock, RawSettings, Outcome, valid, refused, rstrip_slash, offset_of, backend_of, is_https,
  token_of, build_env, block_of, cons_env, build_envs,
}

-- An environment that can be uploaded to: a minute's offset, an encrypted connection, a token.
pub record IsUsable (e : Environment) : Type 0 where
  pub offset : e.schedule_offset_seconds ≤ 59
  pub encrypted : starts_with (codes "https:") e.backend_base_url ≡ true
  pub token : is_empty (strip e.api_token) ≡ false

true_ne_false : true ≡ false → ⊥
true_ne_false h = cc

pub some_ne_none : {A : Type 0} (a : A) → some a ≡ none → ⊥
some_ne_none a h = cc

starts_with-append :
    (ps qs url : Text) → starts_with (ps ++ qs) url ≡ true → starts_with ps url ≡ true
unfolding starts_with
starts_with-append [] qs url h = refl
starts_with-append (p ∷ ps) qs [] h = h
starts_with-append (p ∷ ps) qs (c ∷ s) h =
    let (same, more) = and_true (p == c) _ h in rw (same, starts_with-append ps qs s more) refl

-- A prefix without a slash outlives `rstrip("/")`.
starts_with-rstrip_slash :
    (ps url : Text)
    → All (λ p. (p == b'/') ≡ false) ps
    → starts_with ps url ≡ true
    → starts_with ps (rstrip_slash url) ≡ true
unfolding starts_with rstrip_slash
starts_with-rstrip_slash [] url k h = refl
starts_with-rstrip_slash (p ∷ ps) [] k h = h
starts_with-rstrip_slash (p ∷ ps) (c ∷ s) k h =
    let (same, more) = and_true (p == c) _ h in
    let no_slash : (c == b'/') ≡ false = rw (==-true p c same) at k.0 in
    rw (no_slash, same, starts_with-rstrip_slash ps s k.1 more) refl

https-rstrip_slash :
    (url : Text) → is_https url ≡ true → starts_with (codes "https:") (rstrip_slash url) ≡ true
unfolding is_https nat_eq
https-rstrip_slash url h =
    starts_with-rstrip_slash (codes "https:") url (refl, (refl, (refl, (refl, (refl, (refl, tt))))))
      (starts_with-append (codes "https:") (codes "//") url h)

pub token_of-some :
    (given : Option Text) (token : Text)
    → token_of given ≡ some token
    → is_empty (strip token) ≡ false
unfolding token_of
token_of-some none token h = cc
token_of-some (some t) token h = elim (Bool-cases (is_empty (strip t))) [
  | inl e ↦ absurd (some_ne_none token (sym (rw (e, token_of) at h)))
  | inr e ↦ rw (← some-injective t token (rw (e, token_of) at h)) e
]

pub offset_of-some : (given : ℤ) (n : ℕ) → offset_of given ≡ some n → n ≤ 59
unfolding offset_of
offset_of-some (pos k) n h = ground arith
offset_of-some (negsuc k) n h = ground arith

-- What `build_env` yields for a name, if it yields anything.
abbrev EnvIf : Text → Outcome Environment → Type 0
EnvIf name (refused e) = Unit {0}
EnvIf name (valid env) = (env.name ≡ name) × IsUsable env

build_env-EnvIf : (name : Text) (block : Option EnvBlock) → EnvIf name (build_env name block)
unfolding build_env
build_env-EnvIf name none = tt
build_env-EnvIf name (some block) = elim (Option-cases block.watch_dir) [
  | inl e ↦ rw e tt
  | inr (dir, e) ↦ elim (Option-cases (token_of block.api_token)) [
    | inl e₁ ↦ rw (e, e₁) tt
    | inr (token, e₁) ↦ elim (Option-cases block.schedule_offset_seconds) [
      | inl e₂ ↦ rw (e, e₁, e₂) tt
      | inr (given, e₂) ↦ elim (Option-cases (offset_of given)) [
        | inl e₃ ↦ rw (e, e₁, e₂, e₃) tt
        | inr (n, e₃) ↦ elim (Bool-cases (is_https (backend_of name block.backend_base_url))) [
          | inl e₄ ↦
              rw (e, e₁, e₂, e₃, e₄)
                (
                  refl,
                  record {
                    offset = offset_of-some given n e₃;
                    encrypted = https-rstrip_slash (backend_of name block.backend_base_url) e₄;
                    token = token_of-some block.api_token token e₁;
                  },
                )
          | inr e₄ ↦ rw (e, e₁, e₂, e₃, e₄) tt
        ]
      ]
    ]
  ]
]

-- The environment is what its block gives.
abbrev pub IsBuilt : RawSettings → Environment → Type 0
IsBuilt raw env = build_env env.name (block_of raw env.name) ≡ valid env

abbrev pub EnvsIf : RawSettings → List Text → Outcome (List Environment) → Type 0
EnvsIf raw names (refused e) = Unit {0}
EnvsIf raw names (valid envs) =
    (map (λ e. e.name) envs ≡ names) × All IsUsable envs × All (IsBuilt raw) envs

cons_env-EnvsIf :
    (raw : RawSettings) (name : Text) (names : List Text) (env : Outcome Environment)
    (rest : Outcome (List Environment))
    → build_env name (block_of raw name) ≡ env
    → EnvIf name env
    → EnvsIf raw names rest
    → EnvsIf raw (name ∷ names) (cons_env env rest)
cons_env-EnvsIf raw name names (refused e) rest b h k = tt
cons_env-EnvsIf raw name names (valid env) (refused e) b h k = tt
cons_env-EnvsIf raw name names (valid env) (valid envs) b h k = (
  rw (h.0, k.0) refl,
  (h.1, k.1),
  (subst (λ (n : Text). build_env n (block_of raw n) ≡ valid env) (sym h.0) b, k.2),
)

pub build_envs-EnvsIf :
    (raw : RawSettings) (names : List Text) → EnvsIf raw names (build_envs raw names)
unfolding build_envs
build_envs-EnvsIf raw [] = (refl, tt, tt)
build_envs-EnvsIf raw (name ∷ names) =
    cons_env-EnvsIf raw name names (build_env name (block_of raw name)) (build_envs raw names) refl
      (build_env-EnvIf name (block_of raw name)) (build_envs-EnvsIf raw names)
