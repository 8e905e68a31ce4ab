-- ===== src/Batch/Preserves.antt =====
-- Rules for what an action of a run leaves true, one for each way to build an action.
use pms_scanner.Prelude.{
  Bool, true, false, if◌then◌else◌, Exec, Result, ok, raised, pure, lift, reading, handling,
  proceed, ◌>>=◌,
}

-- `m` keeps `P`, whether it returns or raises.
pub record Preserves {ℓ κ} {S : Type ℓ} {A : Type ℓ} (P : S → Type κ) (m : Exec S A)
    : Type (ℓ ⊔ κ) where
  pub at : (s : S) → P s → P (m s).1

module _ {ℓ κ} {S A : Type ℓ} {P : S → Type κ} where
  pub Preserves-pure : (a : A) → Preserves P (pure a)
  unfolding pure
  Preserves-pure a = record { at = λ s h. h }

  pub Preserves-lift : (r : Result A) → Preserves P (lift r)
  unfolding lift
  Preserves-lift r = record { at = λ s h. h }

  pub Preserves-reading :
      (f : S → Exec S A) → ((s : S) → Preserves P (f s)) → Preserves P (reading f)
  unfolding reading
  Preserves-reading f k = record { at = λ s h. (k s).at s h }

  pub Preserves-if :
      (b : Bool) (m n : Exec S A) → Preserves P m → Preserves P n → Preserves P (if b then m else n)
  Preserves-if true m n km kn = km
  Preserves-if false m n km kn = kn

module _ {ℓ κ} {S A B : Type ℓ} {P : S → Type κ} where
  proceed_keeps :
      (f : A → Exec S B)
      → ((a : A) → Preserves P (f a))
      → (r : Result A) (s : S) → P s
      → P (proceed f r s).1
  proceed_keeps f kf (ok a) s h = (kf a).at s h
  proceed_keeps f kf (raised e) s h = h

  pub Preserves-bind :
      (m : Exec S A) (f : A → Exec S B)
      → Preserves P m
      → ((a : A) → Preserves P (f a))
      → Preserves P (m >>= f)
  unfolding ◌>>=◌
  Preserves-bind m f km kf = record { at = λ s h. proceed_keeps f kf (m s).0 (m s).1 (km.at s h) }

  pub Preserves-handling :
      (m : Exec S A) (f : Result A → Exec S B)
      → Preserves P m
      → ((r : Result A) → Preserves P (f r))
      → Preserves P (handling m f)
  unfolding handling
  Preserves-handling m f km kf = record { at = λ s h. (kf (m s).0).at (m s).1 (km.at s h) }

pub ruleset preserves_rules = (
  Preserves-pure, Preserves-lift, Preserves-reading, Preserves-if, Preserves-bind,
  Preserves-handling,
)
