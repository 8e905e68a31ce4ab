-- ===== src/Config/Message.antt =====
-- scanner/config.py: the text of a `ConfigError`, from the errors that pydantic found.
pub mod Named
use pms_scanner.Prelude.{
  Bool, true, false, not, ◌&&◌, Option, none, some, List, [], ◌∷◌, ◌++◌, map, Text, codes, nat_eq,
  ◌==◌, if◌then◌else◌,
}
use pms_scanner.Prelude.Texts.{includes}
use pms_scanner.Machine.{is_empty}

-- An entry of `exc.errors()`: the texts of the steps of its place, and its message; what is missing
-- is empty.
pub record FieldError : Type 0 where
  pub loc : List Text
  pub msg : Text

-- The text behind a prefix.
after_prefix : Text → Text → Option Text
after_prefix [] s = some s
after_prefix (p ∷ ps) [] = none
after_prefix (p ∷ ps) (c ∷ s) = if p == c then after_prefix ps s else none

-- `str.removeprefix`
unfoldable pub remove_prefix : Text → Text → Text
unfolding after_prefix
remove_prefix part s = elim (after_prefix part s) [ none ↦ s | some rest ↦ rest ]

-- `str.join`
unfoldable pub join : Text → List Text → Text
join sep [] = []
join sep (s ∷ []) = s
join sep (s ∷ t ∷ rest) = s ++ (sep ++ join sep (t ∷ rest))

unfoldable pub error_place : FieldError → Text
unfolding join
error_place err = join (codes ".") err.loc

unfoldable pub error_text : FieldError → Text
unfolding remove_prefix
error_text err = remove_prefix (codes "Value error, ") err.msg

-- One round of the loop.
unfoldable pub error_part : FieldError → Text
unfolding error_place error_text
error_part err =
    let place = error_place err in
    let text = error_text err in
    if not (is_empty place) && not (includes place text)
    then place ++ (codes ": " ++ text)
    else text

-- `_format`, for the errors of the exception and for its own text.
unfoldable pub format : List FieldError → Text → Text
unfolding error_part join
format errs exc =
    let parts = join (codes " ; ") (map error_part errs) in if is_empty parts then exc else parts
