-- ===== src/Prelude/Texts/Replace.antt =====
-- What a replacement by stars leaves of a text.
use Prim.Native.Nat.{ℕ, zero, suc}
use mathlib.Core.Path.{◌≡◌, refl, sym, ◌∙◌}
use mathlib.Core.Logic.{◌≢◌, inl, inr}
use mathlib.Core.Bool.{true, false}
use mathlib.Core.List.{[], ◌∷◌, ◌++◌}
use pms_scanner.Prelude.Tests.{Text, codes, ◌==◌, nat_eq, ==-false, Bool-cases, and_true, or_false}
use pms_scanner.Prelude.Lists.{length, All}
use pms_scanner.Prelude.Texts.{starts_with, includes, replace_from}

abbrev pub stars : Text
stars = codes "***"

-- No star stands in the text.
abbrev pub StarFree : Text → Type 0
StarFree s = All (λ c. c ≢ b'*') s

true_ne_false : true ≡ false → ⊥
true_ne_false h = cc

-- A part without a star does not begin at a star.
starts_with-star : (q : ℕ) (qs rest : Text) → q ≢ b'*' → starts_with (q ∷ qs) (b'*' ∷ rest) ≡ false
unfolding starts_with
starts_with-star q qs rest h = rw (==-false q b'*' h) refl

includes-stars :
    (q : ℕ) (qs rest : Text)
    → q ≢ b'*'
    → includes (q ∷ qs) rest ≡ false
    → includes (q ∷ qs) (stars ++ rest) ≡ false
unfolding includes
includes-stars q qs rest h k = rw (==-false q b'*' h, k) refl

module _ (p : ℕ) (ps new : Text) where
  replace_from-hit :
      (c : ℕ) (s : Text)
      → starts_with (p ∷ ps) (c ∷ s) ≡ true
      → replace_from zero p ps new (c ∷ s) ≡ new ++ replace_from (length ps) p ps new s
  unfolding replace_from
  replace_from-hit c s h = rw (h, replace_from) refl

  replace_from-miss :
      (c : ℕ) (s : Text)
      → starts_with (p ∷ ps) (c ∷ s) ≡ false
      → replace_from zero p ps new (c ∷ s) ≡ c ∷ replace_from zero p ps new s
  unfolding replace_from
  replace_from-miss c s h = rw (h, replace_from) refl

  replace_from-skip :
      (k c : ℕ) (s : Text) → replace_from (suc k) p ps new (c ∷ s) ≡ replace_from k p ps new s
  unfolding replace_from
  replace_from-skip k c s = refl

  replace_from-nil : (k : ℕ) → replace_from k p ps new [] ≡ []
  unfolding replace_from
  replace_from-nil zero = refl
  replace_from-nil (suc k) = refl

module _ (p : ℕ) (ps : Text) where
  -- Where a part without a star begins behind the replacement, it began before it.
  starts_with-replace_from :
      (qs s : Text)
      → StarFree qs
      → starts_with qs (replace_from zero p ps stars s) ≡ true
      → starts_with qs s ≡ true
  unfolding starts_with
  starts_with-replace_from [] s f h = refl
  starts_with-replace_from (q ∷ qs) [] f h = rw (replace_from-nil p ps stars zero) at h
  starts_with-replace_from (q ∷ qs) (c ∷ s) f h = elim (Bool-cases (starts_with (p ∷ ps) (c ∷ s))) [
    | inl hit ↦
        let stuck =
          rw
            (
              replace_from-hit p ps stars c s hit,
              starts_with-star q qs (b'*' ∷ b'*' ∷ replace_from (length ps) p ps stars s) f.0,
            )
            at h in
        absurd (true_ne_false (sym stuck))
    | inr miss ↦
        let (same, more) = and_true (q == c) _ (rw (replace_from-miss p ps stars c s miss) at h) in
        rw (same, starts_with-replace_from qs s f.1 more) refl
  ]

  starts_with-replace_from-false :
      (qs s : Text)
      → StarFree qs
      → starts_with qs s ≡ false
      → starts_with qs (replace_from zero p ps stars s) ≡ false
  starts_with-replace_from-false qs s f h =
      elim (Bool-cases (starts_with qs (replace_from zero p ps stars s))) [
        | inl e ↦ absurd (true_ne_false (sym (starts_with-replace_from qs s f e) ∙ h))
        | inr e ↦ e
      ]

  -- One more character that the replacement keeps.
  includes-miss :
      (q : ℕ) (qs : Text) (c : ℕ) (s : Text)
      → StarFree (q ∷ qs)
      → starts_with (p ∷ ps) (c ∷ s) ≡ false
      → starts_with (q ∷ qs) (c ∷ s) ≡ false
      → includes (q ∷ qs) (replace_from zero p ps stars s) ≡ false
      → includes (q ∷ qs) (replace_from zero p ps stars (c ∷ s)) ≡ false
  unfolding includes
  includes-miss q qs c s f miss h k =
      let fresh =
        rw (replace_from-miss p ps stars c s miss) at
          (starts_with-replace_from-false (q ∷ qs) (c ∷ s) f h) in
      rw (replace_from-miss p ps stars c s miss, fresh, k) refl

  -- A part without a star that the text does not hold is not in it behind the replacement.
  pub includes-replace_from :
      (q : ℕ) (qs s : Text) (skip : ℕ)
      → StarFree (q ∷ qs)
      → includes (q ∷ qs) s ≡ false
      → includes (q ∷ qs) (replace_from skip p ps stars s) ≡ false
  unfolding includes
  includes-replace_from q qs [] skip f h = rw (replace_from-nil p ps stars skip) h
  includes-replace_from q qs (c ∷ s) (suc skip) f h =
      rw (replace_from-skip p ps stars skip c s)
        (includes-replace_from q qs s skip f (or_false (starts_with (q ∷ qs) (c ∷ s)) _ h).1)
  includes-replace_from q qs (c ∷ s) zero f h =
      let (not_here, not_later) = or_false (starts_with (q ∷ qs) (c ∷ s)) _ h in
      elim (Bool-cases (starts_with (p ∷ ps) (c ∷ s))) [
        | inl hit ↦ rw (replace_from-hit p ps stars c s hit) (
            includes-stars q qs (replace_from (length ps) p ps stars s) f.0
              (includes-replace_from q qs s (length ps) f not_later))
        | inr miss ↦
            includes-miss q qs c s f miss not_here (includes-replace_from q qs s zero f not_later)
      ]

  -- No occurrence of what is replaced is left, if it has no star.
  pub includes-replace_from_self :
      (s : Text) (skip : ℕ)
      → StarFree (p ∷ ps)
      → includes (p ∷ ps) (replace_from skip p ps stars s) ≡ false
  unfolding includes
  includes-replace_from_self [] skip f = rw (replace_from-nil p ps stars skip) refl
  includes-replace_from_self (c ∷ s) (suc skip) f =
      rw (replace_from-skip p ps stars skip c s) (includes-replace_from_self s skip f)
  includes-replace_from_self (c ∷ s) zero f = elim (Bool-cases (starts_with (p ∷ ps) (c ∷ s))) [
    | inl hit ↦ rw (replace_from-hit p ps stars c s hit) (
        includes-stars p ps (replace_from (length ps) p ps stars s) f.0
          (includes-replace_from_self s (length ps) f))
    | inr miss ↦ includes-miss p ps c s f miss miss (includes-replace_from_self s zero f)
  ]
