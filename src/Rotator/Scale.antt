-- ===== src/Rotator/Scale.antt =====
-- liboverlay/overlayMdssRot.cpp: the crops that the MDSS rotator adjusts, the factor by which it
-- scales down, and the size of a compressed buffer. Extents are not negative and stay in an int.
use android_device_casio_dtx.Base.{
  ℕ, zero, suc, ◌+◌, ◌-◌, ◌*◌, ◌/◌, ◌%◌, Bool, false, ◌&&◌, ◌||◌, not, ltb, ◌==◌, if◌then◌else◌,
  u32_mod, min,
}
use android_device_casio_dtx.Utils.{Dim, Whf, normalize_crop, aligndown, align}

unfoldable pub yuv_crop : Bool → Dim → Dim
yuv_crop is_interlaced crop =
    let (x, w) = normalize_crop crop.x crop.w in
    let (y, h) = normalize_crop crop.y crop.h in
    record {
      x = x;
      y = y;
      w = w;
      h = if is_interlaced && not (h % 4 == 0) then aligndown h 4 else h;
    }

unfoldable pub get_format_adjusted_crop : Bool → Bool → Dim → Dim
unfolding yuv_crop
get_format_adjusted_crop is_yuv is_interlaced crop =
    if is_yuv then yuv_crop is_interlaced crop else crop

unfoldable pub get_downscale_adjusted_crop : Dim → ℕ → Dim
get_downscale_adjusted_crop crop downscale = record crop {
  w = aligndown crop.w (downscale * 2 % u32_mod);
  h = aligndown crop.h (downscale * 2 % u32_mod);
}

-- The loop that halves the factor while the crop loses lines or columns. It runs at most `fuel`
-- times: a factor up to 32 is halved four times.
unfoldable pub reduce : ℕ → Dim → ℕ → ℕ
unfolding get_downscale_adjusted_crop
reduce zero crop downscale = downscale
reduce (suc fuel) crop downscale =
    let smaller = reduce fuel crop (downscale / 2) in
    let adjusted = get_downscale_adjusted_crop crop downscale in
    if ltb 2 downscale && (ltb adjusted.w crop.w || ltb adjusted.h crop.h)
    then smaller
    else downscale

-- The factor for a crop, from the power of two that is wanted.
unfoldable pub factor_for : Dim → ℕ → ℕ
unfolding get_downscale_adjusted_crop reduce
factor_for adjusted wanted =
    let downscale = reduce 4 adjusted wanted in
    let aligned = get_downscale_adjusted_crop adjusted downscale in
    if (ltb wanted 2 || ltb 32 wanted) || (aligned.w == 0 || aligned.h == 0) then 0 else downscale

-- `power_floor` is the rounding by powf, floorf and log2f.
unfoldable pub get_downscale_factor : (ℕ → ℕ) → Bool → Bool → ℕ → ℕ → ℕ → ℕ → ℕ
unfolding get_format_adjusted_crop factor_for
get_downscale_factor power_floor is_yuv is_interlaced src_w src_h dst_w dst_h =
    let adjusted =
      get_format_adjusted_crop is_yuv false record { x = 0; y = 0; w = src_w; h = src_h } in
    if src_w == 0 || src_h == 0 || dst_w == 0 || dst_h == 0 || is_interlaced
    then 0
    else factor_for adjusted (power_floor (min (adjusted.w / dst_w) (adjusted.h / dst_h)))

unfoldable pub align_units : ℕ → ℕ
align_units value = ((value - 1) / 8 + 1) * 8

-- The bytes of a line of `count` units of `unit` bytes, with its metadata.
unfoldable pub unit_stride : ℕ → ℕ → ℕ
unfolding align_units
unit_stride unit count = unit * count + align_units count / 8

unfoldable pub compressed_yuv : ℕ → ℕ → ℕ
unfolding unit_stride
compressed_yuv a_width a_height =
    let y_count = a_width / 64 in
    let c_count = a_width / 32 in
    let y_lines = a_height / 4 in
    let c_lines = a_height / 2 in
    unit_stride (64 * 4) y_count * y_lines
    + unit_stride (32 * 2) c_count * 2 * c_lines
    + y_count * y_lines * 2
    + c_count * c_lines * 2 * 2

unfoldable pub compressed_rgb : ℕ → ℕ → ℕ
unfolding unit_stride
compressed_rgb a_width a_height =
    let count = a_width / 32 in
    let lines = a_height / 4 in unit_stride (32 * 4) count * lines * 4 + count * lines * 2

unfoldable pub calc_compressed_buf_size : Bool → Whf → ℕ
unfolding compressed_yuv compressed_rgb
calc_compressed_buf_size is_yuv dest =
    let a_width = align dest.w 64 in
    let a_height = align dest.h 4 in
    (if is_yuv then compressed_yuv a_width a_height else compressed_rgb a_width a_height) % u32_mod
