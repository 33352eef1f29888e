-- ===== src/Gralloc.antt =====
-- libgralloc/alloc_controller.cpp, gr.h and the flags of gralloc_priv.h: how large a buffer is,
-- where its planes lie, and from which heap it comes.
-- An int or unsigned int is a native number that wraps modulo 2 ^ 32; a product that overflows an
-- int, which C++ leaves open, wraps too.
pub mod Size
pub mod Bounds
pub mod Room
pub mod Planes
pub mod Heap
pub mod Fallback
pub mod Buffer
pub mod Examples
use Prim.Native.Nat.{bit_and}
use android_device_casio_dtx.Base.{
  ℕ, ◌+◌, ◌-◌, ◌*◌, ◌/◌, ◌%◌, ◌^◌, ◌≤◌, Bool, true, false, ◌&&◌, ◌||◌, not, Option, none, some,
  u32_mod, ◌==◌, if◌then◌else◌,
}

-- The pixel formats that the code names; an ASTC format is given by its number in the list, and
-- `other` is any format that no switch names.
pub data Format : Type 0 where
  rgba_8888 rgbx_8888 bgra_8888 rgba_1010102 rgba_fp16 rgb_888 rgb_565 raw16 : Format
  ycrcb_420_sp_adreno ycbcr_420_sp_tiled yv12 ycbcr_420_sp ycrcb_420_sp : Format
  ycbcr_422_sp ycrcb_422_sp ycbcr_422_i ycrcb_422_i : Format
  ycbcr_420_sp_venus nv12_encodeable blob raw_opaque nv21_zsl : Format
  astc other : ℕ → Format

-- What libadreno_utils, a property, `MDPVersion` and msm_media_info.h answer.
pub record Platform : Type 0 where
  -- The format is at most HAL_PIXEL_FORMAT_BGRA_8888.
  pub is_packed : Format → Bool
  -- debug.gralloc.map_fb_memory is set.
  pub map_fb_memory : Bool
  pub adreno_loaded : Bool
  -- compute_aligned_width_and_height: width, height, bytes per pixel and tiling.
  pub aligned : Option (ℕ → ℕ → ℕ → Bool → ℕ × ℕ)
  -- compute_surface_padding: width and bytes per pixel.
  pub padding : Option (ℕ → ℕ → ℕ)
  pub macro_tiling : Option Bool
  -- compute_compressedfmt_aligned_width_and_height: width, height and format.
  pub compressed : Option (ℕ → ℕ → Format → ℕ × ℕ)
  pub pixel_alignment : Option ℕ
  pub supports_macro_tile : Bool
  pub venus_y_stride : ℕ → ℕ
  pub venus_y_scanlines : ℕ → ℕ
  pub venus_buffer_size : ℕ → ℕ → ℕ

abbrev pub mul32 : ℕ → ℕ → ℕ
mul32 a b = a * b % u32_mod

-- (x + align - 1) & ~(align - 1).
unfoldable pub align_up : ℕ → ℕ → ℕ
align_up x align =
    if align == 0 then 0 else let v = (x + (align - 1)) % u32_mod in v - bit_and v (align - 1)

abbrev page_size : ℕ
page_size = 4096

unfoldable pub round_up_to_page_size : ℕ → ℕ
unfolding align_up
round_up_to_page_size x = align_up x page_size

abbrev pub is_odd : ℕ → Bool
is_odd n = n % 2 == 1
