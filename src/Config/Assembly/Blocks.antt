-- ===== src/Config/Assembly/Blocks.antt =====
-- What an environment that `_build_env` accepts takes from its block, rule by rule.
use mathlib.Core.Option.{some-injective}
use mathlib.Core.Path.{subst}
use pms_scanner.Prelude.{
  ℕ, zero, suc, ◌≤◌, le→leb, ◌≡◌, ◌⊎◌, ◌↔◌, refl, ◌∙◌, sym, ap, inl, inr, true, false, Option, none,
  some, [], ◌∷◌, ◌++◌, Text, codes, leb, ◌==◌, ==-true, ◌&&◌, nat_eq, text_eq, Bool-cases,
  Option-cases, Bool, if◌then◌else◌,
}
use pms_scanner.Prelude.Int.{ℤ, pos, negsuc}
use pms_scanner.Prelude.Texts.{starts_with}
use pms_scanner.Machine.{strip, is_empty}
use pms_scanner.Config.{Environment}
use pms_scanner.Config.Assembly.{
  EnvBlock, RawSettings, Outcome, valid, refused, rstrip_slash, offset_of, backend_of, is_https,
  token_of, build_env, block_of, default_backend,
}
use pms_scanner.Config.Assembly.Usable.{IsBuilt, some_ne_none, offset_of-some, token_of-some}

-- The URL that an environment of this name is to use: the given one, or its default.
pub data Chosen (name : Text) (given : Option Text) : Text → Type 0 where
  as_given : (c : ℕ) (url : Text) → given ≡ some (c ∷ url) → Chosen name given (c ∷ url)
  default_production :
      (given ≡ none) ⊎ (given ≡ some [])
      → name ≡ codes "production"
      → Chosen name given (codes "https://adg.mpsinc.io")
  default_other :
      (given ≡ none) ⊎ (given ≡ some [])
      → (name == codes "production") ≡ false
      → Chosen name given (codes "https://dev.adg.mpsinc.io")

abbrev pub slashes : ℕ → Text
slashes zero = []
slashes (suc k) = b'/' ∷ slashes k

abbrev pub ends_in_slash : Text → Bool
ends_in_slash [] = false
ends_in_slash (c ∷ []) = c == b'/'
ends_in_slash (c ∷ d ∷ s) = ends_in_slash (d ∷ s)

-- The text without the slashes at its end.
pub record IsCut (url cut : Text) : Type 0 where
  pub count : ℕ
  pub whole : url ≡ cut ++ slashes count
  pub ends : ends_in_slash cut ≡ false

-- The rules for the block of an environment, and what the environment takes from it.
pub record IsDescribed (raw : RawSettings) (env : Environment) : Type 0 where
  pub block : EnvBlock
  pub given : block_of raw env.name ≡ some block
  pub folder : block.watch_dir ≡ some env.watch_dir
  pub token : block.api_token ≡ some env.api_token
  pub token_said : is_empty (strip env.api_token) ≡ false
  pub offset : block.schedule_offset_seconds ≡ some (pos env.schedule_offset_seconds)
  pub in_minute : env.schedule_offset_seconds ≤ 59
  pub url : Text
  pub chosen : Chosen env.name block.backend_base_url url
  pub encrypted : starts_with (codes "https://") url ≡ true
  pub base : IsCut url env.backend_base_url
  pub enabled : env.enabled ≡ block.enabled
  pub requisition : env.requisition_id ≡ block.requisition_id

cons-IsCut :
    (c : ℕ) (s rest : Text) (k : ℕ)
    → s ≡ rest ++ slashes k
    → ends_in_slash rest ≡ false
    → IsCut (c ∷ s) (if c == b'/' && is_empty rest then [] else c ∷ rest)
cons-IsCut c s [] k e h = elim (Bool-cases (c == b'/')) [
  | inl slash ↦
      rw slash (record { count = suc k; whole = rw (==-true c b'/' slash, e); ends = refl })
  | inr other ↦ rw other (record { count = k; whole = rw e; ends = other })
]
cons-IsCut c s (d ∷ rest) k e h = elim (Bool-cases (c == b'/')) [
  | inl slash ↦ rw slash (record { count = k; whole = rw e; ends = h })
  | inr other ↦ rw other (record { count = k; whole = rw e; ends = h })
]

rstrip_slash-IsCut : (url : Text) → IsCut url (rstrip_slash url)
unfolding rstrip_slash
rstrip_slash-IsCut [] = record { count = 0; whole = refl; ends = refl }
rstrip_slash-IsCut (c ∷ s) =
    let rest = rstrip_slash-IsCut s in
    cons-IsCut c s (rstrip_slash s) rest.count rest.whole rest.ends

rstrip_slash-slashes : (k : ℕ) → rstrip_slash (slashes k) ≡ []
unfolding rstrip_slash nat_eq
rstrip_slash-slashes zero = refl
rstrip_slash-slashes (suc k) = rw (rstrip_slash-slashes k) refl

rstrip_slash-append :
    (cut : Text) (k : ℕ) → ends_in_slash cut ≡ false → rstrip_slash (cut ++ slashes k) ≡ cut
unfolding rstrip_slash
rstrip_slash-append [] k h = rstrip_slash-slashes k
rstrip_slash-append (c ∷ []) k h = rw (rstrip_slash-slashes k, h) refl
rstrip_slash-append (c ∷ d ∷ s) k h = elim (Bool-cases (c == b'/')) [
  | inl slash ↦ rw (rstrip_slash-append (d ∷ s) k h, slash) refl
  | inr other ↦ rw (rstrip_slash-append (d ∷ s) k h, other) refl
]

default-Chosen :
    (name : Text) (given : Option Text)
    → (given ≡ none) ⊎ (given ≡ some [])
    → Chosen name given (default_backend name)
unfolding default_backend
default-Chosen name given h = elim (Bool-cases (name == codes "production")) [
  | inl same ↦ rw same (default_production h (==-true name (codes "production") same))
  | inr other ↦ rw other (default_other h other)
]

backend_of-Chosen : (name : Text) (given : Option Text) → Chosen name given (backend_of name given)
unfolding backend_of
backend_of-Chosen name none = default-Chosen name none (inl refl)
backend_of-Chosen name (some []) = default-Chosen name (some []) (inr refl)
backend_of-Chosen name (some (c ∷ url)) = as_given c url refl

Chosen-backend_of :
    (name : Text) (given : Option Text) {url : Text}
    → Chosen name given url
    → backend_of name given ≡ url
unfolding backend_of default_backend text_eq nat_eq
Chosen-backend_of name given (as_given c url e) = rw e refl
Chosen-backend_of name given (default_production (inl e) same) = rw (e, same) refl
Chosen-backend_of name given (default_production (inr e) same) = rw (e, same) refl
Chosen-backend_of name given (default_other (inl e) other) = rw (e, other) refl
Chosen-backend_of name given (default_other (inr e) other) = rw (e, other) refl

IsDescribed-IsBuilt :
    (raw : RawSettings) (env : Environment) → IsDescribed raw env → IsBuilt raw env
unfolding build_env token_of offset_of is_https
IsDescribed-IsBuilt raw env d =
    rw
      (
        d.given,
        d.folder,
        d.token,
        d.token_said,
        d.offset,
        le→leb env.schedule_offset_seconds 59 d.in_minute,
        Chosen-backend_of env.name d.block.backend_base_url d.chosen,
        d.encrypted,
        d.base.whole,
        rstrip_slash-append env.backend_base_url d.base.count d.base.ends,
        ← d.enabled,
        ← d.requisition,
      )
      refl

offset_of-pos : (given : ℤ) (n : ℕ) → offset_of given ≡ some n → given ≡ pos n
unfolding offset_of
offset_of-pos (pos k) n h = elim (Bool-cases (leb k 59)) [
  | inl e ↦ ap pos (some-injective k n (rw (e, offset_of) at h))
  | inr e ↦ absurd (some_ne_none n (sym (rw (e, offset_of) at h)))
]
offset_of-pos (negsuc k) n h = absurd (some_ne_none n (sym h))

token_of-given :
    (given : Option Text) (token : Text) → token_of given ≡ some token → given ≡ some token
unfolding token_of
token_of-given none token h = h
token_of-given (some t) token h = elim (Bool-cases (is_empty (strip t))) [
  | inl e ↦ absurd (some_ne_none token (sym (rw (e, token_of) at h)))
  | inr e ↦ rw (e, token_of) at h
]

abbrev DescribedIf : RawSettings → Outcome Environment → Type 0
DescribedIf raw (refused e) = Unit {0}
DescribedIf raw (valid env) = IsDescribed raw env

build_env-DescribedIf :
    (raw : RawSettings) (name : Text) (found : Option EnvBlock)
    → block_of raw name ≡ found
    → DescribedIf raw (build_env name found)
unfolding build_env is_https
build_env-DescribedIf raw name none k = tt
build_env-DescribedIf raw name (some block) k = elim (Option-cases block.watch_dir) [
  | inl e ↦ rw e tt
  | inr (dir, e) ↦ elim (Option-cases (token_of block.api_token)) [
    | inl e₁ ↦ rw (e, e₁) tt
    | inr (token, e₁) ↦ elim (Option-cases block.schedule_offset_seconds) [
      | inl e₂ ↦ rw (e, e₁, e₂) tt
      | inr (given, e₂) ↦ elim (Option-cases (offset_of given)) [
        | inl e₃ ↦ rw (e, e₁, e₂, e₃) tt
        | inr (n, e₃) ↦ elim (Bool-cases (is_https (backend_of name block.backend_base_url))) [
          | inl e₄ ↦
              rw (e, e₁, e₂, e₃, e₄)
                (record {
                  block = block;
                  given = k;
                  folder = e;
                  token = token_of-given block.api_token token e₁;
                  token_said = token_of-some block.api_token token e₁;
                  offset = e₂ ∙ ap some (offset_of-pos given n e₃);
                  in_minute = offset_of-some given n e₃;
                  url = backend_of name block.backend_base_url;
                  chosen = backend_of-Chosen name block.backend_base_url;
                  encrypted = e₄;
                  base = rstrip_slash-IsCut (backend_of name block.backend_base_url);
                  enabled = refl;
                  requisition = refl;
                })
          | inr e₄ ↦ rw (e, e₁, e₂, e₃, e₄) tt
        ]
      ]
    ]
  ]
]

-- The environments that `_build_env` accepts are those that the rules describe.
pub IsBuilt-IsDescribed :
    (raw : RawSettings) (env : Environment) → IsBuilt raw env ↔ IsDescribed raw env
IsBuilt-IsDescribed raw env = (
  λ b. subst (DescribedIf raw) b (build_env-DescribedIf raw env.name (block_of raw env.name) refl),
  IsDescribed-IsBuilt raw env,
)
