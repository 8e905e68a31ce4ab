-- ===== src/Prelude/Texts.antt =====
-- Texts searched and changed, as `str` and `re` do.
pub mod Replace
use Prim.Native.Nat.{ℕ, zero, suc}
use mathlib.Core.Bool.{Bool, true, false, ◌&&◌, ◌||◌}
use mathlib.Core.List.{List, [], ◌∷◌, ◌++◌}
use pms_scanner.Prelude.Tests.{Text, ◌==◌, nat_eq, if◌then◌else◌}
use pms_scanner.Prelude.Lists.{length}

-- `text.startswith(part)`
unfoldable pub starts_with : Text → Text → Bool
starts_with [] s = true
starts_with (p ∷ ps) [] = false
starts_with (p ∷ ps) (c ∷ s) = p == c && starts_with ps s

-- `part in text`
unfoldable pub includes : Text → Text → Bool
unfolding starts_with
includes part [] = starts_with part []
includes part (c ∷ s) = starts_with part (c ∷ s) || includes part s

-- `text.replace(part, new)`, for a part `p ∷ ps`, behind `skip` characters of an occurrence.
unfoldable pub replace_from : ℕ → ℕ → Text → Text → Text → Text
unfolding starts_with
replace_from skip p ps new [] = []
replace_from (suc skip) p ps new (c ∷ s) = replace_from skip p ps new s
replace_from zero p ps new (c ∷ s) =
    let hit = replace_from (length ps) p ps new s in
    let miss = replace_from zero p ps new s in
    if starts_with (p ∷ ps) (c ∷ s) then new ++ hit else c ∷ miss
