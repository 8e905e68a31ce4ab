-- ===== src/Prelude/Effects.antt =====
-- Methods that change an object and may raise. What was written before an exception stays written,
-- so the state comes back beside the exception too.
use Prim.Native.Nat.{ℕ}
use mathlib.Core.List.{List}

-- A Python exception: the lookup of a missing key, `FileNotFoundError`, any other `OSError`, and
-- what an imaging library or an unexpected answer of the backend raises, with its text. `stalled`
-- is no exception: a loop of the model has used up its rounds.
pub data Fault : Type 0 where
  key_error file_not_found stalled : Fault
  os_error : List ℕ → Fault
  other_error : List ℕ → Fault

pub data Result {ℓ} (A : Type ℓ) : Type ℓ where
  ok : A → Result A
  raised : Fault → Result A

abbrev pub Exec {ℓ κ} : Type ℓ → Type κ → Type (ℓ ⊔ κ)
Exec S A = S → Result A × S

module _ {ℓ κ} {S : Type ℓ} {A : Type κ} where
  unfoldable pub pure : A → Exec S A
  pure a s = (ok a, s)

  unfoldable pub raise : Fault → Exec S A
  raise f s = (raised f, s)

  -- A pure function that may raise.
  unfoldable pub lift : Result A → Exec S A
  lift r s = (r, s)

  -- An action that reads the state first.
  unfoldable pub reading : (S → Exec S A) → Exec S A
  reading f s = f s s

module _ {ℓ κ ι} {S : Type ℓ} {A : Type κ} {B : Type ι} where
  abbrev pub proceed : (A → Exec S B) → Result A → S → Result B × S
  proceed f (ok a) s = f a s
  proceed f (raised e) s = (raised e, s)

  infixl 5 ◌>>=◌ ◌>>◌
  -- To unfold this unfolds the actions above too.
  unfoldable pub ◌>>=◌ : Exec S A → (A → Exec S B) → Exec S B
  unfolding pure raise lift reading
  ◌>>=◌ m f s = let (r, s') = m s in proceed f r s'

  abbrev pub ◌>>◌ : Exec S A → Exec S B → Exec S B
  m >> k = m >>= λ _. k

  -- `try`, with what follows on a value and on an exception.
  unfoldable pub handling : Exec S A → (Result A → Exec S B) → Exec S B
  handling m next s = let (r, s') = m s in next r s'
