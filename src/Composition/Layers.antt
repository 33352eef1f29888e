-- ===== src/Composition/Layers.antt =====
-- hwc_mdpcomp.cpp: what the composition policy asks of one layer. The answers of hwc_utils.cpp, of
-- isValidDimension and of the rotator are fields.
use android_device_casio_dtx.Base.{ℕ, Bool, not, ◌&&◌, ◌||◌, ltb}
use android_device_casio_dtx.Geometry.{Rect}

pub record Layer : Type 0 where
  pub updating : Bool
  pub has_90_transform : Bool
  pub rotation_doable : Bool
  pub valid_dimension : Bool
  pub skip : Bool
  pub yuv_buffer : Bool
  pub secure_buffer : Bool
  pub within_threshold : Bool
  pub securing : Bool
  pub plane_alpha : ℕ
  pub alpha_scaled : Bool
  pub downscale_required : Bool
  pub aiv_video : Bool
  pub aiv_cc : Bool
  pub yuv_split_needed : Bool
  pub display_frame : Rect

-- `threshold` is whether sDownscaleThreshold is above 1.
unfoldable pub is_supported_for_mdp_comp : Bool → Layer → Bool
is_supported_for_mdp_comp threshold l =
    not (l.has_90_transform && not l.rotation_doable || not l.valid_dimension || l.skip)
    && not (threshold && (not l.yuv_buffer && not l.within_threshold))

unfoldable pub is_yuv_doable : Bool → Layer → Bool
is_yuv_doable can_use_rotator l =
    not l.skip
    && not (l.has_90_transform && not can_use_rotator)
    && not l.securing
    && l.valid_dimension
    && not (ltb l.plane_alpha 255)

unfoldable pub is_secure_rgb_doable : Bool → Layer → Bool
unfolding is_supported_for_mdp_comp
is_secure_rgb_doable threshold l =
    not l.skip && not l.securing && is_supported_for_mdp_comp threshold l
