-- ===== src/Geometry/Sanitize.antt =====
-- libhwcomposer/hwc_utils.cpp: getSanitizeROI, which fits a region to what the panel can update.
-- The remainder and the quotient of ints round towards zero; the code tests that no divisor is 0.
use android_device_casio_dtx.Base.{
  ℕ, ◌+◌, ◌-◌, ◌*◌, ◌/◌, ◌%◌, not, ◌&&◌, ◌||◌, ltb, leb, ◌==◌, if◌then◌else◌, u32_mod,
}
use android_device_casio_dtx.Geometry.{Rect, zero_int, add_int, sub_int, is_valid_rect}

-- `qdutils::PanelInfo`, as far as it is read here; the numbers are ints.
pub record PanelInfo : Type 0 where
  pub left_align : ℕ
  pub width_align : ℕ
  pub top_align : ℕ
  pub height_align : ℕ
  pub min_roi_width : ℕ
  pub min_roi_height : ℕ

abbrev magnitude : ℕ → ℕ
magnitude a = if leb zero_int a then a - zero_int else zero_int - a

abbrev pub rem_int : ℕ → ℕ → ℕ
rem_int a b =
    if leb zero_int a
    then zero_int + magnitude a % magnitude b
    else zero_int - magnitude a % magnitude b

abbrev pub div_int : ℕ → ℕ → ℕ
div_int a b =
    let quotient = magnitude a / magnitude b in
    if leb zero_int a && leb zero_int b || ltb a zero_int && ltb b zero_int
    then (zero_int + quotient) % u32_mod
    else zero_int - quotient

abbrev pub mul_int : ℕ → ℕ → ℕ
mul_int a b = (a * b + zero_int * (a + b + 1)) % u32_mod

-- An extent of a region, from `lo` up to `hi`.
pub record Extent : Type 0 where
  pub lo : ℕ
  pub hi : ℕ

unfoldable pub widen : ℕ → ℕ → Extent → Extent
widen least bound e =
    if ltb (sub_int e.hi e.lo) least
    then if ltb bound (add_int e.lo least)
      then record e { lo = sub_int e.hi least }
      else record e { hi = add_int e.lo least }
    else e

unfoldable pub align_low : ℕ → Extent → Extent
align_low low_align e =
    if not (low_align == zero_int)
    then record e { lo = sub_int e.lo (rem_int e.lo low_align) }
    else e

unfoldable pub aligned_size : ℕ → ℕ → ℕ
aligned_size unit size = mul_int unit (div_int (add_int size (sub_int unit (zero_int + 1))) unit)

unfoldable pub align_size : ℕ → ℕ → ℕ → Extent → Extent
unfolding align_low aligned_size
align_size low_align unit bound e =
    let size = aligned_size unit (sub_int e.hi e.lo) in
    let hi = add_int e.lo size in
    if not (unit == zero_int)
    then if ltb bound hi
      then align_low low_align record { lo = sub_int bound size; hi = bound }
      else record e { hi = hi }
    else e

unfoldable pub align_extent : ℕ → ℕ → ℕ → Extent → Extent
unfolding align_low align_size
align_extent low_align unit bound e = align_size low_align unit bound (align_low low_align e)

unfoldable pub sanitize_extent : ℕ → ℕ → ℕ → ℕ → Extent → Extent
unfolding widen align_extent
sanitize_extent least low_align unit bound e =
    align_extent low_align unit bound (widen least bound e)

unfoldable pub get_sanitize_roi : PanelInfo → Rect → Rect → Rect
unfolding sanitize_extent
get_sanitize_roi p roi boundary =
    let across =
      sanitize_extent p.min_roi_width p.left_align p.width_align boundary.right
        record { lo = roi.left; hi = roi.right } in
    let down =
      sanitize_extent p.min_roi_height p.top_align p.height_align boundary.bottom
        record { lo = roi.top; hi = roi.bottom } in
    if not (is_valid_rect roi)
    then roi
    else record { left = across.lo; top = down.lo; right = across.hi; bottom = down.hi }
