-- ===== src/Config/Assembly.antt =====
-- scanner/config.py: the assembly of the environments from the settings, `_assemble`.
pub mod Names
pub mod Usable
pub mod Valid
pub mod Blocks
pub mod Accepts
use mathlib.Core.Option
use pms_scanner.Prelude.{
  ℕ, Bool, true, false, ◌&&◌, ◌||◌, not, Option, none, some, List, [], ◌∷◌, map, Text, codes, leb,
  keep_if, contains, ◌==◌, nat_eq, text_eq, if◌then◌else◌,
}
use pms_scanner.Prelude.Int.{ℤ, pos, negsuc}
use pms_scanner.FileName.{lower}
use pms_scanner.Machine.{
  strip, is_empty, MachineIdentity, IdentityError, Identified, identity, invalid, identify,
}
use pms_scanner.Prelude.Texts.{starts_with}
use pms_scanner.Config.{Environment}
use pms_scanner.Config.Options.{Options, blank_is_none, clean_options}

-- `_EnvBlock`
pub record EnvBlock : Type 0 where
  pub enabled : Bool
  pub watch_dir : Option Text
  pub backend_base_url : Option Text
  pub api_token : Option Text
  pub requisition_id : Option Text
  pub schedule_offset_seconds : Option ℤ

-- The fields of `AppSettings` as they are given.
pub record RawSettings : Type 0 where
  pub machine_identity : Text
  pub environments_raw : Text
  pub env_production : Option EnvBlock
  pub env_staging : Option EnvBlock
  pub options : Options

-- `AppSettings`, with `_machine` and `_environments`.
pub record AppSettings : Type 0 where
  pub machine : MachineIdentity
  pub environments : List Environment
  pub options : Options

-- The `ValueError`s, by the check that raises them.
pub data ConfigError : Type 0 where
  bad_machine : IdentityError → ConfigError
  no_environments : ConfigError
  unknown_environments : List Text → ConfigError
  no_block no_watch_dir no_api_token no_offset bad_offset not_https : Text → ConfigError
  same_folder same_offset : Text → Text → ConfigError

pub data Outcome {ℓ} (A : Type ℓ) : Type ℓ where
  valid : A → Outcome A
  refused : ConfigError → Outcome A

abbrev pub valid_env_names : List Text
valid_env_names = codes "production" ∷ codes "staging" ∷ []

-- `_DEFAULT_BACKEND[name]`, for a valid name.
unfoldable pub default_backend : Text → Text
default_backend name =
    if name == codes "production"
    then codes "https://adg.mpsinc.io"
    else codes "https://dev.adg.mpsinc.io"

abbrev onto : ℕ → List Text → List Text
onto c [] = (c ∷ []) ∷ []
onto c (w ∷ ws) = (c ∷ w) ∷ ws

-- `s.split(",")`
pub split_commas : Text → List Text
split_commas [] = [] ∷ []
split_commas (c ∷ s) = let rest = split_commas s in if c == b',' then [] ∷ rest else onto c rest

-- `[n.strip().lower() for n in raw.split(",") if n.strip()]`
unfoldable pub env_names : Text → List Text
unfolding split_commas strip lower
env_names raw =
    map (λ n. lower (strip n)) (keep_if (λ n. not (is_empty (strip n))) (split_commas raw))

-- `url.rstrip("/")`
unfoldable pub rstrip_slash : Text → Text
rstrip_slash [] = []
rstrip_slash (c ∷ s) =
    let rest = rstrip_slash s in if c == b'/' && is_empty rest then [] else c ∷ rest

-- `0 <= offset <= 59`
unfoldable pub offset_of : ℤ → Option ℕ
offset_of (pos n) = if leb n 59 then some n else none
offset_of (negsuc n) = none

-- `block.backend_base_url or _DEFAULT_BACKEND[name]`
unfoldable pub backend_of : Text → Option Text → Text
unfolding default_backend
backend_of name none = default_backend name
backend_of name (some url) = if is_empty url then default_backend name else url

-- `_check_scheme`
unfoldable pub is_https : Text → Bool
unfolding starts_with
is_https url = starts_with (codes "https://") url

-- A token that is missing or blank is none.
unfoldable pub token_of : Option Text → Option Text
unfolding strip
token_of none = none
token_of (some token) = if is_empty (strip token) then none else some token

-- `_build_env`
unfoldable pub build_env : Text → Option EnvBlock → Outcome Environment
unfolding token_of offset_of backend_of is_https rstrip_slash
build_env name none = refused (no_block name)
build_env name (some block) = elim block.watch_dir [
  | none ↦ refused (no_watch_dir name)
  | some watch_dir ↦ elim (token_of block.api_token) [
    | none ↦ refused (no_api_token name)
    | some api_token ↦ elim block.schedule_offset_seconds [
      | none ↦ refused (no_offset name)
      | some given ↦ elim (offset_of given) [
        | none ↦ refused (bad_offset name)
        | some offset ↦
            if is_https (backend_of name block.backend_base_url)
            then valid (record {
              name = name;
              enabled = block.enabled;
              watch_dir = watch_dir;
              backend_base_url = rstrip_slash (backend_of name block.backend_base_url);
              api_token = api_token;
              requisition_id = block.requisition_id;
              schedule_offset_seconds = offset;
            })
            else refused (not_https name)
      ]
    ]
  ]
]

-- `blocks[n]`, for a valid name.
abbrev pub block_of : RawSettings → Text → Option EnvBlock
block_of raw name = if name == codes "production" then raw.env_production else raw.env_staging

abbrev pub cons_env : Outcome Environment → Outcome (List Environment) → Outcome (List Environment)
cons_env (refused e) rest = refused e
cons_env (valid env) (refused e) = refused e
cons_env (valid env) (valid envs) = valid (env ∷ envs)

unfoldable pub build_envs : RawSettings → List Text → Outcome (List Environment)
unfolding build_env
build_envs raw [] = valid []
build_envs raw (name ∷ names) = cons_env (build_env name (block_of raw name)) (build_envs raw names)

-- `[n for n in names if n not in _VALID_ENV_NAMES]`
abbrev pub unknown_in : List Text → List Text
unknown_in names = keep_if (λ n. not (contains valid_env_names n)) names

-- `_EnvBlock._blank_is_none`
abbrev pub clean_block : EnvBlock → EnvBlock
clean_block b = record b {
  requisition_id = blank_is_none b.requisition_id;
  backend_base_url = blank_is_none b.backend_base_url;
}

-- What the validators make of the given fields.
abbrev pub clean : RawSettings → RawSettings
clean raw = record raw {
  env_production = Option.map clean_block raw.env_production;
  env_staging = Option.map clean_block raw.env_staging;
  options = clean_options raw.options;
}

-- `resolve` is `Path.resolve`, which follows the links of the file system.
module _ (resolve : Text → Text) where
  -- The test of one pair in `_check_distinct`.
  unfoldable pub clash : Environment → Environment → Option ConfigError
  clash a b =
      if resolve a.watch_dir == resolve b.watch_dir
      then some (same_folder a.name b.name)
      else if a.schedule_offset_seconds == b.schedule_offset_seconds
      then some (same_offset a.name b.name)
      else none

  unfoldable pub clash_with : Environment → List Environment → Option ConfigError
  unfolding clash
  clash_with a [] = none
  clash_with a (b ∷ bs) = elim (clash a b) [ none ↦ clash_with a bs | some e ↦ some e ]

  unfoldable pub clashes : List Environment → Option ConfigError
  unfolding clash_with
  clashes [] = none
  clashes (a ∷ bs) = elim (clash_with a bs) [ none ↦ clashes bs | some e ↦ some e ]

  -- `_check_distinct`
  unfoldable pub check_distinct : List Environment → Option ConfigError
  unfolding clashes
  check_distinct envs = clashes (keep_if (λ e. e.enabled) envs)

  abbrev pub distinct_or :
      MachineIdentity → Options → Outcome (List Environment) → Outcome AppSettings
  distinct_or machine options (refused e) = refused e
  distinct_or machine options (valid envs) = elim (check_distinct envs) [
    | none ↦ valid (record { machine = machine; environments = envs; options = options })
    | some e ↦ refused e
  ]

  -- `_assemble`
  unfoldable pub assemble : RawSettings → Outcome AppSettings
  unfolding env_names build_envs check_distinct
  assemble raw = elim (identify raw.machine_identity) [
    | invalid e ↦ refused (bad_machine e)
    | identity machine ↦
        if is_empty (strip raw.environments_raw)
        then refused no_environments
        else elim (unknown_in (env_names (strip raw.environments_raw))) [
          | n ∷ ns ↦ refused (unknown_environments (n ∷ ns))
          | [] ↦
              distinct_or machine raw.options
                (build_envs raw (env_names (strip raw.environments_raw)))
        ]
  ]

  -- `load_settings`
  unfoldable pub load_settings : RawSettings → Outcome AppSettings
  unfolding assemble blank_is_none
  load_settings raw = assemble (clean raw)
