-- ===== src/Gralloc/Size.antt =====
-- The dimensions and the size of a buffer (alloc_controller.cpp: isMacroTileEnabled,
-- getAlignedWidthAndHeight, getSize, getBufferSizeAndDimensions).
use Prim.Native.Nat.{bit_and}
use android_device_casio_dtx.Base.{
  ℕ, ◌+◌, ◌/◌, Bool, false, ◌&&◌, ◌||◌, not, Option, none, some, add32, ◌==◌, if◌then◌else◌,
}
use android_device_casio_dtx.Gralloc.{
  Format, rgba_8888, rgbx_8888, bgra_8888, rgba_1010102, rgba_fp16, rgb_888, rgb_565, raw16,
  ycrcb_420_sp_adreno, ycbcr_420_sp_tiled, yv12, ycbcr_420_sp, ycrcb_420_sp, ycbcr_422_sp,
  ycrcb_422_sp, ycbcr_422_i, ycrcb_422_i, ycbcr_420_sp_venus, nv12_encodeable, blob, raw_opaque,
  nv21_zsl, astc, other, Platform, mul32, align_up, is_odd,
}

abbrev or_zero : Option Bool → Bool
or_zero none = false
or_zero (some b) = b

unfoldable pub is_macro_tiling_supported_by_gpu : Platform → Bool
is_macro_tiling_supported_by_gpu p = p.adreno_loaded && or_zero p.macro_tiling

-- `sw_mask` joins GRALLOC_USAGE_SW_READ_MASK and GRALLOC_USAGE_SW_WRITE_MASK.
abbrev pub tiles : Bool → Format → Bool
tiles rendered rgba_8888 = not rendered
tiles rendered rgbx_8888 = not rendered
tiles rendered bgra_8888 = not rendered
tiles rendered rgb_565 = not rendered
tiles rendered _ = false

unfoldable pub is_macro_tile_enabled : Platform → ℕ → Format → ℕ → Bool
unfolding is_macro_tiling_supported_by_gpu
is_macro_tile_enabled p sw_mask format usage =
    is_macro_tiling_supported_by_gpu p
    && p.supports_macro_tile
    && tiles (not (bit_and usage sw_mask == 0)) format

abbrev pub bytes_per_pixel : Format → ℕ
bytes_per_pixel rgba_fp16 = 8
bytes_per_pixel rgb_888 = 3
bytes_per_pixel rgb_565 = 2
bytes_per_pixel _ = 4

-- The branch of the packed RGB formats, where padding is computed.
unfoldable pub packed_dimensions : Platform → ℕ → ℕ → Format → Bool → ℕ × ℕ
packed_dimensions p width height format tile =
    let w = align_up width 32 in
    let h = align_up height 32 in
    if p.map_fb_memory || not p.adreno_loaded then (w, h) else elim p.aligned [
      | some compute ↦ compute width height (bytes_per_pixel format) tile
      | none ↦ elim p.padding [
        | some compute ↦ (compute width (bytes_per_pixel format), h)
        | none ↦ (w, h)
      ]
    ]

abbrev pub semi_planar_alignment : Platform → ℕ
semi_planar_alignment p = elim p.pixel_alignment [ some a ↦ a | none ↦ 16 ]

-- The other formats.
unfoldable pub planar_dimensions : Platform → ℕ → ℕ → Format → ℕ × ℕ
planar_dimensions p width height ycrcb_420_sp = (align_up width (semi_planar_alignment p), height)
planar_dimensions p width height ycbcr_420_sp = (align_up width (semi_planar_alignment p), height)
planar_dimensions p width height ycrcb_420_sp_adreno = (align_up width 32, height)
planar_dimensions p width height ycbcr_420_sp_tiled = (align_up width 128, height)
planar_dimensions p width height yv12 = (align_up width 16, height)
planar_dimensions p width height ycbcr_422_sp = (align_up width 16, height)
planar_dimensions p width height ycrcb_422_sp = (align_up width 16, height)
planar_dimensions p width height ycbcr_422_i = (align_up width 16, height)
planar_dimensions p width height ycrcb_422_i = (align_up width 16, height)
planar_dimensions p width height ycbcr_420_sp_venus =
    (p.venus_y_stride width, p.venus_y_scanlines height)
planar_dimensions p width height nv12_encodeable =
    (p.venus_y_stride width, p.venus_y_scanlines height)
planar_dimensions p width height nv21_zsl = (align_up width 64, align_up height 64)
planar_dimensions p width height (astc n) = elim p.compressed [
  | some compute ↦ compute width height (astc n)
  | none ↦ (width, height)
]
planar_dimensions p width height _ = (width, height)

unfoldable pub get_aligned_width_and_height : Platform → ℕ → ℕ → Format → Bool → ℕ × ℕ
unfolding packed_dimensions planar_dimensions
get_aligned_width_and_height p width height format tile =
    if p.is_packed format
    then packed_dimensions p width height format tile
    else planar_dimensions p width height format

-- The luma plane and half as much chroma.
abbrev pub with_half : ℕ → ℕ
with_half luma = add32 luma (luma / 2)

unfoldable pub get_size : Platform → Format → ℕ → ℕ → ℕ → ℕ → ℕ
get_size p rgba_fp16 width height w h = mul32 (mul32 w h) 8
get_size p rgba_8888 width height w h = mul32 (mul32 w h) 4
get_size p rgbx_8888 width height w h = mul32 (mul32 w h) 4
get_size p bgra_8888 width height w h = mul32 (mul32 w h) 4
get_size p rgba_1010102 width height w h = mul32 (mul32 w h) 4
get_size p rgb_888 width height w h = mul32 (mul32 w h) 3
get_size p rgb_565 width height w h = mul32 (mul32 w h) 2
get_size p raw16 width height w h = mul32 (mul32 w h) 2
get_size p ycrcb_420_sp_adreno width height w h =
    add32 (align_up (mul32 w h) 4096)
      (align_up (mul32 (mul32 2 (align_up (width / 2) 32)) (align_up (height / 2) 32)) 4096)
get_size p ycbcr_420_sp_tiled width height w h =
    add32 (align_up (mul32 w h) 8192) (align_up (mul32 w (align_up (height / 2) 32)) 8192)
get_size p yv12 width height w h =
    if is_odd width || is_odd height
    then 0
    else align_up (add32 (mul32 w h) (mul32 (mul32 (align_up (w / 2) 16) (h / 2)) 2)) 4096
get_size p ycbcr_420_sp width height w h = align_up (add32 (with_half (mul32 w h)) 1) 4096
get_size p ycrcb_420_sp width height w h = align_up (add32 (with_half (mul32 w h)) 1) 4096
get_size p ycbcr_422_sp width height w h =
    if is_odd width then 0 else align_up (mul32 (mul32 w h) 2) 4096
get_size p ycrcb_422_sp width height w h =
    if is_odd width then 0 else align_up (mul32 (mul32 w h) 2) 4096
get_size p ycbcr_422_i width height w h =
    if is_odd width then 0 else align_up (mul32 (mul32 w h) 2) 4096
get_size p ycrcb_422_i width height w h =
    if is_odd width then 0 else align_up (mul32 (mul32 w h) 2) 4096
get_size p ycbcr_420_sp_venus width height w h = p.venus_buffer_size width height
get_size p nv12_encodeable width height w h = p.venus_buffer_size width height
get_size p blob width height w h = if height == 1 then width else 0
get_size p raw_opaque width height w h = if height == 1 then width else 0
get_size p nv21_zsl width height w h = align_up (with_half (mul32 w h)) 4096
get_size p (astc n) width height w h = mul32 (mul32 w h) 16
get_size p (other n) width height w h = 0

-- The aligned width and height, whether the buffer is tiled, and its size.
pub record BufferAttributes : Type 0 where
  pub aligned_w : ℕ
  pub aligned_h : ℕ
  pub tile_enabled : Bool
  pub size : ℕ

unfoldable pub get_buffer_attributes : Platform → ℕ → ℕ → ℕ → Format → ℕ → BufferAttributes
unfolding is_macro_tile_enabled get_aligned_width_and_height get_size
get_buffer_attributes p sw_mask width height format usage =
    let tile = is_macro_tile_enabled p sw_mask format usage in
    let (w, h) = get_aligned_width_and_height p width height format tile in
    record {
      aligned_w = w;
      aligned_h = h;
      tile_enabled = tile;
      size = get_size p format width height w h;
    }

-- getYUVPlaneInfo: offsets from the start of the buffer.
pub record Planes : Type 0 where
  pub y : ℕ
  pub cb : ℕ
  pub cr : ℕ
  pub ystride : ℕ
  pub cstride : ℕ
  pub chroma_step : ℕ

abbrev pub cb_first : ℕ → ℕ → Planes
cb_first width height = record {
  y = 0;
  cb = mul32 width height;
  cr = mul32 width height + 1;
  ystride = width;
  cstride = width;
  chroma_step = 2;
}

abbrev pub cr_first : ℕ → ℕ → Planes
cr_first width height = record {
  y = 0;
  cb = mul32 width height + 1;
  cr = mul32 width height;
  ystride = width;
  cstride = width;
  chroma_step = 2;
}

unfoldable pub plane_info : Format → ℕ → ℕ → Option Planes
plane_info ycbcr_420_sp width height = some (cb_first width height)
plane_info ycbcr_422_sp width height = some (cb_first width height)
plane_info ycbcr_420_sp_venus width height = some (cb_first width height)
plane_info nv12_encodeable width height = some (cb_first width height)
plane_info ycrcb_420_sp width height = some (cr_first width height)
plane_info ycrcb_422_sp width height = some (cr_first width height)
plane_info ycrcb_420_sp_adreno width height = some (cr_first width height)
plane_info nv21_zsl width height = some (cr_first width height)
plane_info yv12 width height =
    let cstride = align_up (width / 2) 16 in
    some (record {
      y = 0;
      cr = mul32 width height;
      cb = mul32 width height + mul32 cstride height / 2;
      ystride = width;
      cstride = cstride;
      chroma_step = 1;
    })
plane_info _ width height = none

-- `slice` is the geometry in the metadata, where an UPDATE_BUFFER_GEOMETRY is flagged.
unfoldable pub get_yuv_plane_info : Platform → Format → ℕ → ℕ → Option (ℕ × ℕ) → Option Planes
unfolding plane_info get_aligned_width_and_height
get_yuv_plane_info p format width height none = plane_info format width height
get_yuv_plane_info p format width height (some slice) =
    let (w, h) = get_aligned_width_and_height p slice.0 slice.1 format false in
    plane_info format w h
