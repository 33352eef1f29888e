-- ===== src/Hdmi/Scaled.antt =====
-- The resolution that a display is given in place of its own (hdmi.cpp).
use android_device_casio_dtx.Base.{
  ℕ, ◌+◌, ◌-◌, ◌*◌, ◌/◌, ◌%◌, ◌≤◌, ◌≡◌, refl, Bool, true, false, ltb, if◌then◌else◌, arith, u32_mod,
}
use native.Mathlib.Nat.{mul-le-mul, mul-le-mul_right, le_trans, div-mul-le_self}
use android_device_casio_dtx.Base.Masks.{bit_and_mask}
use android_device_casio_dtx.Utils.{aligndown}
use android_device_casio_dtx.Hdmi.Display.{
  aspect_size, get_aspect_ratio_position, scaled_resolution,
}

aligndown_four : (a : ℕ) → (aligndown a 4 % 4 ≡ 0) × (aligndown a 4 ≤ a)
unfolding aligndown
aligndown_four a = omega (arith, bit_and_mask 2 a)

-- The position is no larger than the destination.
position_size :
    (dw dh sw sh : ℕ)
    → let r = get_aspect_ratio_position dw dh sw sh in (r.2 - r.0 ≤ dw) × (r.3 - r.1 ≤ dh)
unfolding get_aspect_ratio_position
position_size dw dh sw sh = within (aspect_size dw dh sw sh).0 (aspect_size dw dh sw sh).1
  where
    within :
        (a b : ℕ)
        → let w = if ltb dw a then dw else a in
          let h = if ltb dh b then dh else b in
          (w + (dw - w) / 2 - (dw - w) / 2 ≤ dw) × (h + (dh - h) / 2 - (dh - h) / 2 ≤ dh)
    within a b = ground arith

-- Half of the factor along each side, of at most 4, is no more than the factor on the area.
halves_area : (x y m : ℕ) → m ≤ 4 → (x * m / 2) * (y * m / 2) ≤ x * y * m
halves_area x y m h =
    let a = x * m / 2 in
    let b = y * m / 2 in
    let sides : a * 2 * (b * 2) ≤ x * m * (y * m) =
      mul-le-mul (div-mul-le_self (x * m) 2) (div-mul-le_self (y * m) 2) in
    let factor : m * (x * y * m) ≤ 4 * (x * y * m) = mul-le-mul_right (x * y * m) h in
    let four : a * 2 * (b * 2) ≡ 4 * (a * b) = grind arith in
    let regroup : x * m * (y * m) ≡ m * (x * y * m) = grind arith in
    omega (arith, sides, factor, four, regroup)

-- A width and a height of a screen.
abbrev pub Small : ℕ → Type 0
Small a = a ≤ 8192

aligned_area :
    (over : Bool) (w h x y m : ℕ)
    → m ≤ 4
    → (over ≡ false → w * h ≤ x * y * m)
    → let w' = aligndown (if over then x * m / 2 else w) 4 in
      let h' = aligndown (if over then y * m / 2 else h) 4 in
      (w' % 4 ≡ 0) × (h' % 4 ≡ 0) × (w' * h' ≤ x * y * m)
aligned_area true w h x y m k e =
    let a = aligndown_four (x * m / 2) in
    let b = aligndown_four (y * m / 2) in
    (a.0, b.0, le_trans (mul-le-mul a.1 b.1) (halves_area x y m k))
aligned_area false w h x y m k e =
    let a = aligndown_four w in
    let b = aligndown_four h in (a.0, b.0, le_trans (mul-le-mul a.1 b.1) (e refl))

-- The products of the test do not wrap.
within_factor :
    (w h x y m : ℕ)
    → m ≤ 4
    → Small w
    → Small h
    → Small x
    → Small y
    → ltb (x * y * m % u32_mod) (w * h % u32_mod) ≡ false
    → w * h ≤ x * y * m
within_factor w h x y m k a b c d =
    let area : w * h ≤ 8192 * 8192 = mul-le-mul a b in
    let own : x * y * m ≤ 8192 * 8192 * 4 = mul-le-mul (mul-le-mul c d) k in
    small (w * h) (x * y * m) area own
  where
    small :
        (p q : ℕ)
        → p ≤ 8192 * 8192
        → q ≤ 8192 * 8192 * 4
        → ltb (q % u32_mod) (p % u32_mod) ≡ false
        → p ≤ q
    small p q h k e = ground arith

-- The resolution in place of the display's own has sides that are multiples of 4, and at most the
-- area that the display processor can scale down, where its factor is at most 4 and no side is
-- beyond 8192.
pub scaled_resolution-Downscales :
    (m pw ph x y : ℕ)
    → m ≤ 4
    → Small pw
    → Small ph
    → Small x
    → Small y
    → let (w, h) = scaled_resolution m pw ph x y in (w % 4 ≡ 0) × (h % 4 ≡ 0) × (w * h ≤ x * y * m)
unfolding scaled_resolution
scaled_resolution-Downscales m pw ph x y h p q a b =
    let tw = if ltb pw ph then ph else pw in
    let th = if ltb pw ph then pw else ph in
    let size = position_size tw th x y in
    let wide : Small tw = ground arith in
    let high : Small th = ground arith in
    aligned_area _ _ _ x y m h
      (within_factor _ _ x y m h (le_trans size.0 wide) (le_trans size.1 high) a b)
