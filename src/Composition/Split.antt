-- ===== src/Composition/Split.antt =====
-- hwc_mdpcomp.cpp: the regions of a frame on a display whose halves have a mixer each, the layers
-- that are dropped in both, and what of the framebuffer is shown.
use android_device_casio_dtx.Base.{
  ℕ, zero, suc, Bool, true, false, not, ◌&&◌, ◌||◌, if◌then◌else◌, for_range,
}
use android_device_casio_dtx.Geometry.{
  Rect, zero_int, no_rect, is_valid_rect, is_same_rect, get_intersection, get_union, layer_updating,
  calculate_dirty_rect,
}
use android_device_casio_dtx.Geometry.Sanitize.{PanelInfo, get_sanitize_roi}
use android_device_casio_dtx.Composition.Marks.{FrameInfo, reset_drops}
use android_device_casio_dtx.Composition.Roi.{RoiLayer, frame_at, drop_layer, below}

-- One rectangle for each half.
pub record Halves : Type 0 where
  pub l : Rect
  pub r : Rect

unfoldable pub trim_against_roi : Rect → Rect → Rect
unfolding get_intersection
trim_against_roi roi fb_rect = get_intersection fb_rect roi

unfoldable pub trim_against_split_roi : Halves → Rect → Rect
unfolding get_intersection get_union
trim_against_split_roi roi fb_rect =
    get_union (get_intersection fb_rect roi.l) (get_intersection fb_rect roi.r)

unfoldable pub below_both : (ℕ → RoiLayer) → ℕ → Halves → Halves
unfolding below
below_both ls i v = record { l = below ls i v.l; r = below ls i v.r }

-- The loop over the layers from the top; the argument counts the layers that are left.
unfoldable pub validate_split_from : (ℕ → RoiLayer) → ℕ → Halves → FrameInfo → Bool × FrameInfo
unfolding get_intersection get_union is_same_rect drop_layer below_both reset_drops
validate_split_from ls zero visible f = (true, f)
validate_split_from ls (suc i) visible f =
    let l_res = get_intersection visible.l (frame_at ls i) in
    let r_res = get_intersection visible.r (frame_at ls i) in
    let dropped = validate_split_from ls i visible (drop_layer i f) in
    let shown = validate_split_from ls i (below_both ls i visible) f in
    if (not (is_valid_rect visible.l) && not (is_valid_rect visible.r))
      || (not (is_valid_rect l_res) && not (is_valid_rect r_res))
    then dropped
    else if not (is_same_rect (get_union l_res r_res) (frame_at ls i)) && (ls i).needs_scaling
    then (false, reset_drops f)
    else shown

unfoldable pub validate_and_apply_split_roi :
    (ℕ → RoiLayer) → ℕ → Halves → FrameInfo → Bool × FrameInfo
unfolding validate_split_from
validate_and_apply_split_roi ls num_app_layers roi f = validate_split_from ls num_app_layers roi f

-- What a layer adds to the region of a half.
unfoldable pub split_dirty_part : Rect → RoiLayer → Rect
unfolding calculate_dirty_rect get_intersection
split_dirty_part half l =
    if not l.needs_scaling && not l.transformed
    then calculate_dirty_rect l.layer half
    else get_intersection l.layer.display_frame half

unfoldable pub split_roi_step : (ℕ → RoiLayer) → Rect → ℕ → Rect → Rect
unfolding split_dirty_part get_union layer_updating
split_roi_step ls half i roi =
    let dirty = split_dirty_part half (ls i) in
    if (layer_updating (ls i).layer || (ls i).yuv_buffer) && is_valid_rect dirty
    then get_union roi dirty
    else roi

unfoldable pub split_dirty_region : (ℕ → RoiLayer) → ℕ → Rect → Rect
unfolding for_range split_roi_step
split_dirty_region ls num_app_layers half =
    for_range num_app_layers 0 (split_roi_step ls half) no_rect

abbrev pub left_half : ℕ → ℕ → Rect
left_half split height = record { left = zero_int; top = zero_int; right = split; bottom = height }

abbrev pub right_half : ℕ → ℕ → ℕ → Rect
right_half split width height = record {
  left = split;
  top = zero_int;
  right = width;
  bottom = height;
}

-- The regions of the two halves, for one panel update if the panel cannot take two.
unfoldable pub split_regions : Bool → Halves → Halves → Halves
unfolding get_union get_intersection
split_regions needs_roi_merge frame dirty =
    let whole = get_union dirty.l dirty.r in
    if needs_roi_merge
    then record { l = get_intersection whole frame.l; r = get_intersection whole frame.r }
    else dirty

-- The regions and the frame after generateROI; `roi` are the ones before. resetROI sets the halves.
unfoldable pub generate_split_roi :
    PanelInfo
    → Bool
    → (ℕ → RoiLayer)
    → ℕ
    → ℕ
    → ℕ
    → ℕ
    → Bool
    → Halves
    → FrameInfo
    → Halves × FrameInfo
unfolding split_dirty_region split_regions validate_and_apply_split_roi get_sanitize_roi
generate_split_roi panel needs_roi_merge ls num_app_layers split width height can_update roi f =
    let frame : Halves = record { l = left_half split height; r = right_half split width height } in
    let dirty : Halves = record {
      l = split_dirty_region ls num_app_layers frame.l;
      r = split_dirty_region ls num_app_layers frame.r;
    } in
    let region = split_regions needs_roi_merge frame dirty in
    let clean : Halves = record {
      l = get_sanitize_roi panel region.l frame.l;
      r = get_sanitize_roi panel region.r frame.r;
    } in
    let v = validate_and_apply_split_roi ls num_app_layers clean f in
    if not can_update || (not (is_valid_rect region.l) && not (is_valid_rect region.r))
    then (roi, f)
    else if v.0
    then (clean, v.1)
    else (frame, v.1)
