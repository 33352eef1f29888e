-- ===== src/Geometry/Crop.antt =====
-- libhwcomposer/hwc_utils.cpp: cutting a layer's frame and its crop alike, and optimizeLayerRects,
-- which takes from each layer what an opaque layer above it hides.
-- A ratio of a cut to an extent is a pair; `portion size (cut, extent)` is the product of a size
-- with the ratio, rounded, which the code computes in doubles: a parameter.
use android_device_casio_dtx.Base.{
  ℕ, zero, suc, ◌-◌, Bool, false, not, ◌&&◌, ◌||◌, ltb, ◌==◌, if◌then◌else◌, update, add32, sub32,
}
use android_device_casio_dtx.Geometry.{zero_int, Rect, is_valid_rect, get_intersection, deduct_rect}

abbrev pub Portion : Type 0
Portion = ℕ → ℕ × ℕ → ℕ

-- The bits of a transform.
pub record Orient : Type 0 where
  pub flip_h : Bool
  pub flip_v : Bool
  pub rot_90 : Bool

abbrev pub no_orient : Orient
no_orient = record { flip_h = false; flip_v = false; rot_90 = false }

pub record Cuts : Type 0 where
  pub left : ℕ × ℕ
  pub top : ℕ × ℕ
  pub right : ℕ × ℕ
  pub bottom : ℕ × ℕ

unfoldable pub calc_cut : Orient → Cuts → Cuts
calc_cut o c =
    let h = if o.flip_h then record c { left = c.right; right = c.left } else c in
    let v = if o.flip_v then record h { top = h.bottom; bottom = h.top } else h in
    if o.rot_90
    then record { left = v.top; top = v.right; right = v.bottom; bottom = v.left }
    else v

-- abs of an int.
abbrev abs32 : ℕ → ℕ
abs32 n = if ltb n zero_int then n else sub32 0 n

abbrev cut_of : Bool → ℕ → ℕ → ℕ × ℕ
cut_of cuts cut extent = if cuts then (cut, extent) else (0, 1)

-- The frame and the crop after a cut to the scissor.
unfoldable pub calculate_crop_rects : Portion → Rect → Rect → Rect → Orient → Rect × Rect
unfolding calc_cut
calculate_crop_rects portion crop dst scissor orient =
    let crop_w = sub32 crop.right crop.left in
    let crop_h = sub32 crop.bottom crop.top in
    let dst_w = abs32 (sub32 dst.right dst.left) in
    let dst_h = abs32 (sub32 dst.bottom dst.top) in
    let cuts = calc_cut orient (record {
      left = cut_of (ltb dst.left scissor.left) (sub32 scissor.left dst.left) dst_w;
      top = cut_of (ltb dst.top scissor.top) (sub32 scissor.top dst.top) dst_h;
      right = cut_of (ltb scissor.right dst.right) (sub32 dst.right scissor.right) dst_w;
      bottom = cut_of (ltb scissor.bottom dst.bottom) (sub32 dst.bottom scissor.bottom) dst_h;
    }) in
    (
      record {
        left = add32 crop.left (portion crop_w cuts.left);
        top = add32 crop.top (portion crop_h cuts.top);
        right = sub32 crop.right (portion crop_w cuts.right);
        bottom = sub32 crop.bottom (portion crop_h cuts.bottom);
      },
      record {
        left = if ltb dst.left scissor.left then scissor.left else dst.left;
        top = if ltb dst.top scissor.top then scissor.top else dst.top;
        right = if ltb scissor.right dst.right then scissor.right else dst.right;
        bottom = if ltb scissor.bottom dst.bottom then scissor.bottom else dst.bottom;
      },
    )

-- A layer in the list. The crop is in whole pixels.
pub record CropLayer : Type 0 where
  pub crop : Rect
  pub frame : Rect
  pub opaque : Bool
  pub color_fill : Bool
  pub transform : Orient

unfoldable pub needs_scaling : CropLayer → Bool
needs_scaling l =
    not (sub32 l.crop.right l.crop.left == sub32 l.frame.right l.frame.left)
    || not (sub32 l.crop.bottom l.crop.top == sub32 l.frame.bottom l.frame.top)

-- A layer below an opaque one whose frame is `top_frame`.
unfoldable pub cut_layer : Portion → Rect → CropLayer → CropLayer
unfolding needs_scaling get_intersection deduct_rect calculate_crop_rects
cut_layer portion top_frame l =
    let irect = get_intersection l.frame top_frame in
    let r =
      calculate_crop_rects portion l.crop l.frame (deduct_rect l.frame irect)
        (if l.color_fill then no_orient else l.transform) in
    if not (needs_scaling l) && is_valid_rect irect then record l { crop = r.0; frame = r.1 } else l

-- The loop over the layers below, from the top; the argument counts those that are left.
unfoldable pub cut_below : Portion → Rect → ℕ → (ℕ → CropLayer) → ℕ → CropLayer
unfolding cut_layer
cut_below portion top_frame zero ls = ls
cut_below portion top_frame (suc j) ls =
    cut_below portion top_frame j (update ls j (cut_layer portion top_frame (ls j)))

-- The loop over the layers from `i` down to 1.
unfoldable pub optimize_from : Portion → ℕ → (ℕ → CropLayer) → ℕ → CropLayer
unfolding cut_below
optimize_from portion zero ls = ls
optimize_from portion (suc k) ls =
    optimize_from portion k
      (if (ls (suc k)).opaque then cut_below portion (ls (suc k)).frame (suc k) ls else ls)

-- The last layer is the framebuffer's.
unfoldable pub optimize_layer_rects : Portion → ℕ → (ℕ → CropLayer) → ℕ → CropLayer
unfolding optimize_from
optimize_layer_rects portion num_hw_layers ls = optimize_from portion (num_hw_layers - 2) ls
