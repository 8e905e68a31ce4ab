-- ===== src/Pdf/Scaling.antt =====
-- The sizes of the renderings at a lower resolution.
use Prim.Native.Nat.{max}
use pms_scanner.Prelude.{
  or_false, ℕ, zero, suc, ◌⊎◌, ◌+◌, ◌*◌, ◌/◌, ◌%◌, ◌≤◌, ◌<◌, ◌≡◌, refl, inl, inr, false, ◌||◌,
  Bool-cases, leb, ltb, arith, tests, ◌==◌, nat_eq,
}
use pms_scanner.Pdf.{Imaging, render_dpi, round_half_even, downsample_image}

-- `n` is a whole number nearest to `a / 300`.
abbrev pub IsNearest : ℕ → ℕ → Type 0
IsNearest a n = (2 * a ≤ 2 * (300 * n) + 300) × (2 * (300 * n) ≤ 2 * a + 300)

round_half_even-IsNearest : (a : ℕ) → IsNearest a (round_half_even a 300)
unfolding round_half_even
round_half_even-IsNearest a = elim (Bool-cases (ltb (2 * (a % 300)) 300)) [
  | inl e ↦ rw e (omega tests, omega tests)
  | inr e ↦ elim (Bool-cases (ltb 300 (2 * (a % 300)) || (a / 300) % 2 == 1)) [
    | inl up ↦ rw (e, up) (omega tests, omega tests)
    | inr down ↦
        let small = or_false (ltb 300 (2 * (a % 300))) ((a / 300) % 2 == 1) down in
        rw (e, down) (omega (tests, small.0), omega (tests, small.0))
  ]
]

-- One side of the smaller image: the nearest to its exact length, or the one pixel that takes the
-- place of none, where the exact length is half a pixel at most.
pub record IsScaled (side to_dpi n : ℕ) : Type 0 where
  pub some_pixels : 1 ≤ n
  pub no_larger : n ≤ max 1 side
  pub close : ((n ≡ 1) × (2 * (side * to_dpi) ≤ 300)) ⊎ IsNearest (side * to_dpi) n

mul_le : (side to_dpi : ℕ) → to_dpi < 300 → side * to_dpi ≤ side * 300
mul_le zero to_dpi h = omega arith
mul_le (suc side) to_dpi h = omega (arith, mul_le side to_dpi h)

smaller : (side to_dpi n : ℕ) → to_dpi < 300 → IsNearest (side * to_dpi) n → n ≤ side
smaller side to_dpi n h (low, high) = omega (arith, mul_le side to_dpi h)

side-IsScaled :
    (side to_dpi : ℕ)
    → to_dpi < 300
    → IsScaled side to_dpi (max 1 (round_half_even (side * to_dpi) 300))
side-IsScaled side to_dpi h =
    let n = round_half_even (side * to_dpi) 300 in
    let near : IsNearest (side * to_dpi) n = round_half_even-IsNearest (side * to_dpi) in
    at_least_one n near (smaller side to_dpi n h near)
  where
    at_least_one : (n : ℕ) → IsNearest (side * to_dpi) n → n ≤ side → IsScaled side to_dpi (max 1 n)
    at_least_one zero near le = record {
      some_pixels = omega arith;
      no_larger = omega arith;
      close = inl (refl, omega (arith, near.0));
    }
    at_least_one (suc n) near le = record {
      some_pixels = omega arith;
      no_larger = omega arith;
      close = inr (omega arith, omega arith);
    }

lt→leb_false : (d : ℕ) → d < 300 → leb render_dpi d ≡ false
lt→leb_false d h = ground arith

module _ (imaging : Imaging) where
  open imaging use {Image}

  -- An image that goes down to fewer than 300 dots per inch is resized to the nearest sizes in
  -- pixels, but to one pixel where the exact size is half a pixel at most. No side gets more pixels
  -- than the image has, if it has any.
  pub downsample_image-IsScaled :
      (image : Image) (to_dpi : ℕ)
      → to_dpi < 300
      → (w h : ℕ) × (downsample_image imaging image to_dpi ≡ imaging.resize image w h)
        × IsScaled (imaging.width image) to_dpi w
        × IsScaled (imaging.height image) to_dpi h
  unfolding downsample_image
  downsample_image-IsScaled image to_dpi h = (
    max 1 (round_half_even (imaging.width image * to_dpi) 300),
    max 1 (round_half_even (imaging.height image * to_dpi) 300),
    rw (lt→leb_false to_dpi h) refl,
    side-IsScaled (imaging.width image) to_dpi h,
    side-IsScaled (imaging.height image) to_dpi h,
  )
