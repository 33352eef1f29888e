-- ===== src/Copybit/Examples.antt =====
-- The theorems on copybit at a scrolling strip and at two overlaps.
use android_device_casio_dtx.Base.{
  ℕ, zero, suc, ◌*◌, ◌+◌, ◌<◌, ◌≡◌, inl, refl, true, false, none, [], ◌∷◌, leb, ◌==◌, if◌then◌else◌,
  arith,
}
use android_device_casio_dtx.Geometry.{Rect, zero_int, no_rect, is_same_rect}
use android_device_casio_dtx.Gralloc.{Platform}
use android_device_casio_dtx.Gralloc.Size.{get_aligned_width_and_height}
use android_device_casio_dtx.Gralloc.Room.{align_32}
use android_device_casio_dtx.Copybit.Swap.{num_render_buffers, check_fb_cache, reset_fb_cache}
use android_device_casio_dtx.Copybit.Unchanged.{
  Region, same, partly_drawn, redraws, partly_drawn-redraws, partly_drawn_fourth,
}
use android_device_casio_dtx.Copybit.Overlap.{RenderBuffers, prepare_overlap}
use android_device_casio_dtx.Copybit.Placed.{OnScreen}
use android_device_casio_dtx.Copybit.Held.{Grows, Prepared, prepare_overlap-Prepared}

abbrev box : ℕ → ℕ → ℕ → Rect
box top w h = record {
  left = zero_int;
  top = zero_int + top;
  right = zero_int + w;
  bottom = zero_int + top + h;
}

abbrev strip : Region
strip = (box 100 720 80, box 100 720 200)

abbrev bar : Region
bar = (box 0 720 50, box 0 720 50)

strip_changes : same (no_rect, no_rect) strip ≡ false
unfolding is_same_rect
strip_changes = refl

partly_drawn-redraws_example :
    partly_drawn strip (strip ∷ strip ∷ bar ∷ strip ∷ strip ∷ strip ∷ [])
    ≡ leb num_render_buffers (redraws strip (strip ∷ strip ∷ bar ∷ strip ∷ strip ∷ strip ∷ []))
partly_drawn-redraws_example =
    partly_drawn-redraws strip (strip ∷ strip ∷ bar ∷ strip ∷ strip ∷ strip ∷ []) strip_changes

bar_in_between : partly_drawn strip (strip ∷ strip ∷ bar ∷ strip ∷ strip ∷ strip ∷ []) ≡ false
unfolding check_fb_cache reset_fb_cache
bar_in_between = refl

partly_drawn_fourth_example : partly_drawn strip (strip ∷ strip ∷ strip ∷ bar ∷ []) ≡ true
partly_drawn_fourth_example = partly_drawn_fourth strip (bar ∷ []) strip_changes

-- No library of the vendor is there.
abbrev plain : Platform
plain = record {
  is_packed = λ f. true;
  map_fb_memory = false;
  adreno_loaded = false;
  aligned = none;
  padding = none;
  macro_tiling = none;
  compressed = none;
  pixel_alignment = none;
  supports_macro_tile = false;
  venus_y_stride = λ w. w;
  venus_y_scanlines = λ h. h;
  venus_buffer_size = λ w h. w * h;
}

plain-Grows : Grows plain
unfolding get_aligned_width_and_height
plain-Grows w h a b = ((align_32 w (omega arith)).0, (align_32 h (omega arith)).0)

abbrev overlaps : ℕ → Rect
overlaps i = if i == 0 then box 0 720 50 else box 1180 300 100

overlaps-OnScreen : (i : ℕ) → i < 2 → OnScreen (overlaps i)
overlaps-OnScreen zero h = omega arith
overlaps-OnScreen (suc zero) h = omega arith
overlaps-OnScreen (suc (suc i)) h = absurd (omega arith)

abbrev no_buffers : RenderBuffers
no_buffers = record {
  render_buffer = λ i. none;
  rel_fd = λ i. none;
  cur_render_buffer_index = 0;
  aligned_width = 736;
  aligned_height = 1280;
  closed = [];
}

prepare_overlap-Prepared_example :
    Prepared overlaps 2 (prepare_overlap plain (λ i. true) true overlaps 2 no_buffers)
prepare_overlap-Prepared_example =
    prepare_overlap-Prepared plain (λ i. true) true overlaps 2 no_buffers plain-Grows (omega arith)
      overlaps-OnScreen (λ i h. inl refl)

-- The size for the whole screen is lost: the next composition of a frame by copybit asks for
-- buffers of the overlaps' size.
size_shrinks : (prepare_overlap plain (λ i. true) true overlaps 2 no_buffers).0.aligned_height ≡ 192
unfolding prepare_overlap
size_shrinks = refl
