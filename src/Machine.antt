-- ===== src/Machine.antt =====
-- scanner/machine.py: the validated name of the host.
pub mod Validation
use pms_scanner.Prelude.{
  ℕ, ◌+◌, Bool, true, false, ◌&&◌, ◌||◌, not, List, [], ◌∷◌, ◌++◌, Text, codes, leb, ◌==◌, contains,
  nat_eq, text_eq, length, if◌then◌else◌,
}

-- `str.isspace` of one character, the test by which `str.strip` cuts.
unfoldable pub is_space : ℕ → Bool
is_space c =
    leb 9 c && leb c 13
    || leb 28 c && leb c 32
    || c == 133
    || c == 160
    || c == 5760
    || leb 8192 c && leb c 8202
    || c == 8232
    || c == 8233
    || c == 8239
    || c == 8287
    || c == 12288

pub lstrip : Text → Text
lstrip [] = []
lstrip (c ∷ s) = elim (is_space c) [ true ↦ lstrip s | false ↦ c ∷ s ]

abbrev pub is_empty : Text → Bool
is_empty [] = true
is_empty (_ ∷ _) = false

pub rstrip : Text → Text
rstrip [] = []
rstrip (c ∷ s) = let rest = rstrip s in if is_space c && is_empty rest then [] else c ∷ rest

-- `str.strip`
unfoldable pub strip : Text → Text
unfolding is_space lstrip rstrip
strip s = rstrip (lstrip s)

-- [a-z0-9]
unfoldable pub is_lower_alnum : ℕ → Bool
is_lower_alnum c = leb b'a' c && leb c b'z' || leb b'0' c && leb c b'9'

-- [a-z0-9_-]
unfoldable pub is_name_char : ℕ → Bool
unfolding is_lower_alnum
is_name_char c = is_lower_alnum c || c == b'_' || c == b'-'

unfoldable pub all_name_chars : Text → Bool
unfolding is_name_char
all_name_chars [] = true
all_name_chars (c ∷ s) = is_name_char c && all_name_chars s

-- `_NAME_RE.match`, for ^[a-z0-9][a-z0-9_-]{0,30}$. The `$` also stands before a final newline.
pub chop_newline : Text → Text
chop_newline [] = []
chop_newline (c ∷ []) = if c == 10 then [] else c ∷ []
chop_newline (c ∷ d ∷ s) = c ∷ chop_newline (d ∷ s)

pub matches_whole : Text → Bool
unfolding is_name_char all_name_chars
matches_whole [] = false
matches_whole (c ∷ s) = is_lower_alnum c && all_name_chars s && leb (length s) 30

unfoldable pub matches_name_re : Text → Bool
unfolding matches_whole chop_newline
matches_name_re s = matches_whole s || matches_whole (chop_newline s)

abbrev pub reserved : List Text
reserved = codes "in-progress" ∷ codes "processed" ∷ codes ".." ∷ codes "." ∷ []

pub record MachineIdentity : Type 0 where
  pub name : Text

-- `InvalidMachineIdentityError`, by the test that raised it.
pub data IdentityError : Type 0 where
  missing_or_blank reserved_name no_match : IdentityError

pub data Identified : Type 0 where
  identity : MachineIdentity → Identified
  invalid : IdentityError → Identified

-- `MachineIdentity(name)`, with `__post_init__`.
unfoldable pub identify : Text → Identified
unfolding strip matches_name_re
identify raw =
    let stripped = strip raw in
    if is_empty stripped
    then invalid missing_or_blank
    else if contains reserved stripped
    then invalid reserved_name
    else if not (matches_name_re stripped)
    then invalid no_match
    else identity (record { name = stripped })
