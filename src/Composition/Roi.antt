-- ===== src/Composition/Roi.antt =====
-- hwc_mdpcomp.cpp: the region of a frame that is updated, on a display that is not split, and the
-- layers that are dropped because nothing of them is seen in it.
use android_device_casio_dtx.Base.{
  ℕ, zero, suc, ◌+◌, Bool, true, false, not, ◌&&◌, ◌||◌, ◌==◌, if◌then◌else◌, update, for_range,
}
use android_device_casio_dtx.Geometry.{
  Rect, Layer, zero_int, add_int, no_rect, is_valid_rect, is_same_rect, get_intersection, get_union,
  deduct_rect, layer_updating, calculate_dirty_rect,
}
use android_device_casio_dtx.Geometry.Sanitize.{PanelInfo, get_sanitize_roi}
use android_device_casio_dtx.Composition.Marks.{FrameInfo, reset_drops}

-- A layer with what the region depends on.
pub record RoiLayer : Type 0 where
  pub layer : Layer
  pub needs_scaling : Bool
  pub transformed : Bool
  pub yuv_buffer : Bool
  pub blending_none : Bool
  pub plane_alpha : ℕ

abbrev pub frame_at : (ℕ → RoiLayer) → ℕ → Rect
frame_at ls i = (ls i).layer.display_frame

-- The layer hides what is below it.
abbrev pub opaque_at : (ℕ → RoiLayer) → ℕ → Bool
opaque_at ls i = (ls i).blending_none && (ls i).plane_alpha == 255

unfoldable pub drop_layer : ℕ → FrameInfo → FrameInfo
drop_layer i f = record f {
  drop = update (f.drop) i true;
  drop_count = add_int f.drop_count (zero_int + 1);
}

-- What is still visible below layer `i`.
unfoldable pub below : (ℕ → RoiLayer) → ℕ → Rect → Rect
unfolding get_intersection deduct_rect
below ls i visible =
    if opaque_at ls i
    then deduct_rect visible (get_intersection visible (frame_at ls i))
    else visible

-- The loop over the layers from the top; the argument counts the layers that are left.
unfoldable pub validate_from : (ℕ → RoiLayer) → ℕ → Rect → FrameInfo → Bool × FrameInfo
unfolding get_intersection is_same_rect drop_layer below reset_drops
validate_from ls zero visible f = (true, f)
validate_from ls (suc i) visible f =
    let res = get_intersection visible (frame_at ls i) in
    let dropped = validate_from ls i visible (drop_layer i f) in
    let shown = validate_from ls i (below ls i visible) f in
    if not (is_valid_rect visible) || not (is_valid_rect res)
    then dropped
    else if not (is_same_rect res (frame_at ls i)) && (ls i).needs_scaling
    then (false, reset_drops f)
    else shown

unfoldable pub validate_and_apply_roi : (ℕ → RoiLayer) → ℕ → Rect → FrameInfo → Bool × FrameInfo
unfolding validate_from
validate_and_apply_roi ls num_app_layers roi f = validate_from ls num_app_layers roi f

unfoldable pub can_partial_update : Bool → Bool → Bool → Bool → ℕ → Bool → Bool
can_partial_update panel_allows skip_present geometry_changed active dpy secure_ui =
    not (not panel_allows || skip_present || geometry_changed || not active || not (dpy == 0))
    && not secure_ui

-- What a layer adds to the region.
unfoldable pub dirty_part : Rect → RoiLayer → Rect
unfolding calculate_dirty_rect get_intersection
dirty_part full_frame l =
    if not l.needs_scaling && not l.transformed && not l.yuv_buffer
    then calculate_dirty_rect l.layer full_frame
    else get_intersection l.layer.display_frame full_frame

unfoldable pub roi_step : (ℕ → RoiLayer) → Rect → ℕ → Rect → Rect
unfolding dirty_part get_union layer_updating
roi_step ls full_frame i roi =
    if layer_updating (ls i).layer || (ls i).yuv_buffer
    then get_union roi (dirty_part full_frame (ls i))
    else roi

unfoldable pub dirty_region : (ℕ → RoiLayer) → ℕ → Rect → Rect
unfolding for_range roi_step
dirty_region ls num_app_layers full_frame =
    for_range num_app_layers 0 (roi_step ls full_frame) no_rect

-- The region and the frame after generateROI; `roi` is the one before.
unfoldable pub generate_roi :
    PanelInfo → (ℕ → RoiLayer) → ℕ → Rect → Bool → Rect → FrameInfo → Rect × FrameInfo
unfolding dirty_region validate_and_apply_roi get_sanitize_roi
generate_roi panel ls num_app_layers full_frame can_update roi f =
    let region = dirty_region ls num_app_layers full_frame in
    let clean = get_sanitize_roi panel region full_frame in
    let r = validate_and_apply_roi ls num_app_layers clean f in
    if not can_update || not (is_valid_rect region)
    then (roi, f)
    else if r.0
    then (clean, r.1)
    else (full_frame, r.1)
