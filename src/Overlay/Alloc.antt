-- ===== src/Overlay/Alloc.antt =====
-- nextPipe and the policies of getPipe (overlay.cpp).
use android_device_casio_dtx.Base.{
  ℕ, Bool, true, ◌&&◌, ◌||◌, not, some, ltb, ◌==◌, if◌then◌else◌, update, find_index,
}
use android_device_casio_dtx.Ctrl.{PipeType, rgb, vg, dma, any}
use android_device_casio_dtx.Overlay.State.{
  Overlay, PipeBook, PipeSpecs, inactive, create_pipe, mixer_unused, format_none, format_yuv,
  ov_invalid, same_type, valid, dma_blocked, free_for_display,
}

-- The condition of nextPipe's loop.
abbrev pub can_take : Overlay → PipeType → PipeSpecs → ℕ → Bool
can_take o t s i =
    (same_type t any || same_type t (o.pipe_type_lut i))
    && free_for_display o s.dpy i
    && ((o.book i).mixer == mixer_unused || (o.book i).mixer == s.mixer)
    && ((o.book i).format_type == format_none || (o.book i).format_type == s.format_class)
    && not (o.allocated i)
    && (o.dma_multiplexing && not (s.dpy == 0) || not (dma_blocked o i))

-- The entry that a pipe gets for its specs: a pipe object that is there is kept.
abbrev pub claim : PipeSpecs → PipeBook → PipeBook
claim s b =
    let b' = record b { display = s.dpy; mixer = s.mixer; format_type = s.format_class } in
    if valid b then b' else record b' { pipe = some (create_pipe s.dpy); session = inactive }

abbrev pub take_pipe : Overlay → PipeSpecs → ℕ → Overlay
take_pipe o s d = record o {
  allocated = update o.allocated d true;
  book = update o.book d (claim s (o.book d));
}

unfoldable pub next_pipe : PipeType → PipeSpecs → Overlay → Overlay × ℕ
next_pipe t s o =
    let d = find_index o.num_pipes 0 (can_take o t s) ov_invalid in
    if d == ov_invalid then (o, d) else (take_pipe o s d, d)

-- if(dest == OV_INVALID && enabled) dest = nextPipe(t, specs);
abbrev pub fallback : Bool → PipeType → PipeSpecs → Overlay × ℕ → Overlay × ℕ
fallback enabled t s r = if r.1 == ov_invalid && enabled then next_pipe t s r.0 else r

-- The tests of `MDPVersion` that choose a policy.
pub record Target : Type 0 where
  pub is8x26 : Bool
  pub is8x16 : Bool
  pub is8x39 : Bool
  pub is8994 : Bool

abbrev pub is_yuv_class : PipeSpecs → Bool
is_yuv_class s = s.format_class == format_yuv

-- A DMA pipe can serve: no scaling, and it is not the primary of several displays.
abbrev pub dma_serves : PipeSpecs → Bool
dma_serves s = not s.needs_scaling && not (ltb 1 s.num_active_displays && s.dpy == 0)

unfoldable pub get_pipe_8x26 : PipeSpecs → Overlay → Overlay × ℕ
get_pipe_8x26 s o =
    if is_yuv_class s
    then next_pipe vg s o
    else if not s.fb
    then fallback true vg s (fallback true rgb s (fallback (dma_serves s) dma s (o, ov_invalid)))
    else fallback (dma_serves s) dma s
        (fallback (s.dpy == 0) vg s (fallback (s.dpy == 0) rgb s (o, ov_invalid)))

unfoldable pub get_pipe_8x16 : PipeSpecs → Overlay → Overlay × ℕ
get_pipe_8x16 s o =
    if is_yuv_class s || s.needs_scaling
    then next_pipe vg s o
    else fallback true vg s (fallback true dma s (next_pipe rgb s o))

unfoldable pub get_pipe_8x39 : PipeSpecs → Overlay → Overlay × ℕ
unfolding get_pipe_8x16
get_pipe_8x39 s o = get_pipe_8x16 s o

unfoldable pub get_pipe_8994 : PipeSpecs → Overlay → Overlay × ℕ
get_pipe_8994 s o =
    if is_yuv_class s
    then next_pipe vg s o
    else fallback (not s.needs_scaling) dma s (fallback true vg s (next_pipe rgb s o))

unfoldable pub get_pipe_default : PipeSpecs → Overlay → Overlay × ℕ
get_pipe_default s o =
    if is_yuv_class s
    then next_pipe vg s o
    else if not s.fb
    then fallback true vg s
        (fallback true rgb s (fallback (not s.needs_scaling) dma s (o, ov_invalid)))
    else fallback (not s.needs_scaling) dma s (fallback true vg s (next_pipe rgb s o))

unfoldable pub get_pipe : Target → PipeSpecs → Overlay → Overlay × ℕ
unfolding get_pipe_8x26 get_pipe_8x16 get_pipe_8x39 get_pipe_8994 get_pipe_default
get_pipe target s o =
    if target.is8x26
    then get_pipe_8x26 s o
    else if target.is8x16
    then get_pipe_8x16 s o
    else if target.is8x39
    then get_pipe_8x39 s o
    else if target.is8994
    then get_pipe_8994 s o
    else get_pipe_default s o
