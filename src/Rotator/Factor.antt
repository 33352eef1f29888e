-- ===== src/Rotator/Factor.antt =====
-- The factors by which the MDSS rotator scales down (overlayMdssRot.cpp).
use android_device_casio_dtx.Base.{
  ℕ, ◌*◌, ◌^◌, ◌≤◌, ◌<◌, ◌≡◌, ◌⊎◌, Bool, false, if◌then◌else◌, u32_mod,
}
use android_device_casio_dtx.Utils.{Dim, even_floor}
use android_device_casio_dtx.Rotator.Scale.{get_format_adjusted_crop, get_downscale_adjusted_crop}
use android_device_casio_dtx.Rotator.Reduce.{Scales}

-- What `power_floor` does: floats hold the numbers below 2 ^ 24 exactly, and a larger one is
-- rounded to one that is larger than 32.
pub record IsPowerFloor (power_floor : ℕ → ℕ) : Type 0 where
  pub none : power_floor 0 ≡ 0
  pub exact :
      (d : ℕ) → 0 < d → d < 16777216 → (k : ℕ) × (power_floor d ≡ 2 ^ k) × (power_floor d ≤ d)
  pub large : (d : ℕ) → 16777216 ≤ d → 32 < power_floor d

-- The extent that the format allows, for a crop from 0 on.
abbrev adjusted_extent : Bool → ℕ → ℕ
adjusted_extent is_yuv w = if is_yuv then even_floor w else w

-- The source as the rotator reads it for the factor `f`.
abbrev pub read_crop : Bool → ℕ → ℕ → ℕ → Dim
read_crop is_yuv w h f =
    get_downscale_adjusted_crop
      (get_format_adjusted_crop is_yuv false record { x = 0; y = 0; w = w; h = h }) f

-- No scaling, or a factor of 2, 4, 8, 16 or 32 that fits both extents.
abbrev pub IsFactor : Bool → ℕ → ℕ → ℕ → ℕ → ℕ → Type 0
IsFactor is_yuv w h dst_w dst_h f =
    (f ≡ 0)
    ⊎ ((m : ℕ) × (m ≤ 4)
        × (f ≡ 2 * 2 ^ m)
        × Scales f dst_w w (read_crop is_yuv w h f).w
        × Scales f dst_h h (read_crop is_yuv w h f).h)

module _ (power_floor : ℕ → ℕ) (is_floor : IsPowerFloor power_floor) (is_yuv : Bool)
    (w h dst_w dst_h : ℕ) (w_fits : w < u32_mod) (h_fits : h < u32_mod) where
  abbrev crop : Dim
  crop = record { x = 0; y = 0; w = adjusted_extent is_yuv w; h = adjusted_extent is_yuv h }
