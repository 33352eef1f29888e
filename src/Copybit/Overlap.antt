-- ===== src/Copybit/Overlap.antt =====
-- hwc_copybit.cpp: the render buffers with their fences, and prepareOverlap, which finds a place in
-- them for the layers that are composed in part by the blit engine. Sizes are 32-bit patterns of
-- ints that are not negative; a descriptor or a NULL buffer is `none`.
use android_device_casio_dtx.Base.{
  ℕ, zero, suc, ◌+◌, ◌%◌, Bool, true, false, not, ◌&&◌, Option, none, some, List, ◌∷◌, ltb, ◌==◌,
  if◌then◌else◌, update, is_some, add32, sub32, for_range,
}
use android_device_casio_dtx.Geometry.{Rect, zero_int, no_rect}
use android_device_casio_dtx.Gralloc.{Platform, rgba_8888, align_up}
use android_device_casio_dtx.Gralloc.Size.{get_aligned_width_and_height}
use android_device_casio_dtx.Copybit.Swap.{num_render_buffers}

-- A buffer is held by the size that was asked for; `closed` lists the descriptors that were closed.
pub record RenderBuffers : Type 0 where
  pub render_buffer : ℕ → Option (ℕ × ℕ)
  pub rel_fd : ℕ → Option ℕ
  pub cur_render_buffer_index : ℕ
  pub aligned_width : ℕ
  pub aligned_height : ℕ
  pub closed : List ℕ

abbrev pub close_fd : Option ℕ → List ℕ → List ℕ
close_fd none closed = closed
close_fd (some fd) closed = fd ∷ closed

unfoldable pub free_step : ℕ → RenderBuffers → RenderBuffers
free_step i s =
    if is_some (s.render_buffer i)
    then record s {
      render_buffer = update s.render_buffer i none;
      rel_fd = update s.rel_fd i none;
      closed = close_fd (s.rel_fd i) s.closed;
    }
    else s

unfoldable pub free_render_buffers : RenderBuffers → RenderBuffers
unfolding for_range free_step
free_render_buffers s = for_range num_render_buffers 0 free_step s

-- The loop from buffer `i` on, `n` of them left; `has` says which allocations succeed.
unfoldable pub alloc_from : (ℕ → Bool) → ℕ → ℕ → ℕ → ℕ → RenderBuffers → RenderBuffers × Bool
unfolding free_render_buffers
alloc_from has w h zero i s = (s, true)
alloc_from has w h (suc n) i s =
    let kept = alloc_from has w h n (i + 1) s in
    let filled =
      alloc_from has w h n (i + 1)
        (record s { render_buffer = update s.render_buffer i (some (w, h)) }) in
    if is_some (s.render_buffer i)
    then kept
    else if has i
    then filled
    else (free_render_buffers s, false)

unfoldable pub alloc_render_buffers : (ℕ → Bool) → ℕ → ℕ → RenderBuffers → RenderBuffers × Bool
unfolding alloc_from
alloc_render_buffers has w h s = alloc_from has w h num_render_buffers 0 s

unfoldable pub get_current_render_buffer : RenderBuffers → Option (ℕ × ℕ)
get_current_render_buffer s = s.render_buffer s.cur_render_buffer_index

-- `fd` is the duplicate of the fence.
unfoldable pub set_release_fd : Option ℕ → RenderBuffers → RenderBuffers
set_release_fd fd s = record s {
  rel_fd = update s.rel_fd s.cur_render_buffer_index fd;
  closed = close_fd (s.rel_fd s.cur_render_buffer_index) s.closed;
}

-- The places of the overlaps so far, and the size that they need.
pub record Placing : Type 0 where
  pub final_w : ℕ
  pub final_h : ℕ
  pub display_frame : ℕ → Rect

abbrev pub width : Rect → ℕ
width r = sub32 r.right r.left

abbrev pub height : Rect → ℕ
height r = sub32 r.bottom r.top

unfoldable pub place_step : (ℕ → Rect) → ℕ → Placing → Placing
unfolding align_up
place_step overlaps i s =
    let w = width (overlaps i) in
    let h = height (overlaps i) in
    let final_h = add32 s.final_h (align_up h 32) in
    let frame = s.display_frame i in
    let top =
      if ltb (align_up h 32) final_h
      then add32 zero_int (sub32 final_h (align_up h 32))
      else frame.top in
    record {
      final_w = if ltb s.final_w (align_up w 32) then align_up w 32 else s.final_w;
      final_h = final_h;
      display_frame = update s.display_frame i (record {
        left = frame.left;
        top = top;
        right = add32 frame.left w;
        bottom = add32 top h;
      });
    }

-- The record of the overlaps was cleared before.
abbrev pub nothing_placed : Placing
nothing_placed = record { final_w = 0; final_h = 0; display_frame = λ i. no_rect }

unfoldable pub place_overlaps : (ℕ → Rect) → ℕ → Placing
unfolding for_range place_step
place_overlaps overlaps count = for_range count 0 (place_step overlaps) nothing_placed

unfoldable pub prepare_overlap :
    Platform → (ℕ → Bool) → Bool → (ℕ → Rect) → ℕ → RenderBuffers → RenderBuffers × Bool
unfolding place_overlaps get_aligned_width_and_height alloc_render_buffers free_render_buffers
prepare_overlap p has usable overlaps count s =
    let placed = place_overlaps overlaps count in
    let size = get_aligned_width_and_height p placed.final_w placed.final_h rgba_8888 false in
    let fits = s.aligned_width == size.0 && s.aligned_height == size.1 in
    let freed = if fits then s else free_render_buffers s in
    let r = alloc_render_buffers has size.0 size.1 freed in
    if not usable then (s, false) else if not r.1 then (r.0, false) else (
      record r.0 {
        aligned_width = size.0;
        aligned_height = size.1;
        cur_render_buffer_index = (r.0.cur_render_buffer_index + 1) % num_render_buffers;
      },
      true,
    )
