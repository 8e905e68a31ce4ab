-- ===== src/FileName.antt =====
-- File names as `pathlib` reads them, and the decimal form of a page number.
pub mod Distinct
use pms_scanner.Prelude.{
  ℕ, zero, suc, ◌+◌, ◌/◌, ◌%◌, Bool, ◌&&◌, ◌||◌, Option, none, some, List, [], ◌∷◌, ◌++◌, map, Text,
  codes, ltb, leb, ◌==◌, contains, nat_eq, text_eq, if◌then◌else◌,
}
use pms_scanner.Machine.{is_empty}

-- What stands before and behind the last dot.
unfoldable pub split_last_dot : Text → Option (Text × Text)
split_last_dot [] = none
split_last_dot (c ∷ s) = elim (split_last_dot s) [
  | some (before, after) ↦ some (c ∷ before, after)
  | none ↦ if c == b'.' then some ([], s) else none
]

-- `Path.suffix`: a dot in the first or the last place starts no suffix.
unfoldable pub suffix : Text → Text
unfolding split_last_dot
suffix name = elim (split_last_dot name) [
  | none ↦ []
  | some (before, after) ↦ if is_empty before || is_empty after then [] else b'.' ∷ after
]

-- `Path.stem`
unfoldable pub stem : Text → Text
unfolding split_last_dot
stem name = elim (split_last_dot name) [
  | none ↦ name
  | some (before, after) ↦ if is_empty before || is_empty after then name else before
]

-- `str.lower` on ASCII letters. No other character has a letter of a supported suffix, alone, for
-- its lower case.
unfoldable pub lower : Text → Text
lower = map (λ c. if leb b'A' c && leb c b'Z' then c + 32 else c)

-- `SUPPORTED_EXTS`
abbrev pub supported_exts : List Text
supported_exts = codes ".pdf" ∷ codes ".tif" ∷ codes ".tiff" ∷ []

-- `entry.suffix.lower() in SUPPORTED_EXTS`
unfoldable pub is_supported : Text → Bool
unfolding suffix lower
is_supported name = contains supported_exts (lower (suffix name))

-- The digits of `n`, in front of `rest`; `fuel` is at least their number.
digits_onto : ℕ → ℕ → Text → Text
digits_onto zero n rest = rest
digits_onto (suc fuel) n rest =
    let more = digits_onto fuel (n / 10) ((b'0' + n % 10) ∷ rest) in
    if ltb n 10 then (b'0' + n) ∷ rest else more

-- `str(n)`
unfoldable pub decimal : ℕ → Text
unfolding digits_onto
decimal n = digits_onto (suc n) n []

-- `f"{n:03d}"`
unfoldable pub decimal3 : ℕ → Text
unfolding decimal
decimal3 n =
    if ltb n 10 then b'0' ∷ b'0' ∷ decimal n else if ltb n 100 then b'0' ∷ decimal n else decimal n

-- `f"{path.stem}_p{page_num:03d}.tiff"`
unfoldable pub page_file_name : Text → ℕ → Text
unfolding stem decimal3
page_file_name name page_num = stem name ++ (codes "_p" ++ (decimal3 page_num ++ codes ".tiff"))
