-- ===== src/Composition/Policy.antt =====
-- hwc_mdpcomp.cpp: the checks of a marked frame, and the strategies that mark one. What other parts
-- answer (the framebuffer's pipes, the allocation of pipes, the configuration of a layer, the
-- driver's validation) is a parameter, on the frame that asks. fullMDPCompWithPTOR is in
-- Ptor.antt; tryFullFrame, which calls it, is left out.
use android_device_casio_dtx.Base.{
  ℕ, zero, suc, ◌+◌, ◌-◌, Bool, true, false, not, ◌&&◌, ◌||◌, Option, none, some, List, [], ◌∷◌,
  ltb, ◌==◌, if◌then◌else◌, update, has_bit, count_index, min,
}
use android_device_casio_dtx.Geometry.{zero_int, sub_int, get_intersection, is_valid_rect}
use android_device_casio_dtx.Composition.{any_index}
use android_device_casio_dtx.Composition.Layers.{is_supported_for_mdp_comp}
use android_device_casio_dtx.Composition.Marks.{
  FrameInfo, Display, reset, reset_drops, count_mdp, update_layer_cache, update_yuv,
  update_secure_rgb, mark_layers_for_caching,
}
use android_device_casio_dtx.Composition.Stages.{
  Stage, map_layers, adjust_for_source_split, all_stages,
}

-- The frame that was shown last.
pub record LayerCache : Type 0 where
  pub layer_count : ℕ
  pub is_fb_composed : ℕ → Bool
  pub drop : ℕ → Bool

abbrev pub reset_cache : LayerCache
reset_cache = record { layer_count = 0; is_fb_composed = λ i. true; drop = λ i. false }

unfoldable pub update_counts : FrameInfo → LayerCache
update_counts f = record {
  layer_count = f.layer_count;
  is_fb_composed = f.is_fb_composed;
  drop = f.drop;
}

abbrev pub same_bool : Bool → Bool → Bool
same_bool true b = b
same_bool false b = not b

unfoldable pub is_same_frame : Display → FrameInfo → LayerCache → Bool
unfolding any_index
is_same_frame d f c =
    c.layer_count == f.layer_count
    && not (
        any_index f.layer_count 0 (λ i.
          not (same_bool (f.is_fb_composed i) (c.is_fb_composed i))
          || not (same_bool (f.drop i) (c.drop i))
          || f.is_fb_composed i && (d.layers i).updating))

-- What the strategies read of the chip, the display and the list, and what the other parts answer.
pub record Context : Type 0 where
  pub dpy : ℕ
  pub max_pipes_per_mixer : ℕ
  pub available_pipes : ℕ
  pub active_sessions : ℕ
  pub a_family : Bool
  pub overlap_limited : Bool
  pub yuv_split : Bool
  pub simulation_flags : ℕ
  pub num_hw_layers : ℕ
  -- The primary display, on a chip with few pipes, while a virtual display shows video.
  pub virtual_yuv : Bool
  pub mixed_mode : Bool
  pub alpha_in_fb : Bool
  pub skip_present : Bool
  pub geometry_changed : Bool
  pub secure_present : Bool
  pub yuv_present : Bool
  pub cached : LayerCache
  pub fb_prepare : FrameInfo → Bool
  pub alloc_pipes : FrameInfo → Bool
  pub configure : Stage → Bool
  pub validate : FrameInfo → Bool

-- A layer that needs a rotator session.
abbrev pub rotates : Display → FrameInfo → ℕ → Bool
rotates d f i =
    not (f.is_fb_composed i) && (d.layers i).has_90_transform && (d.layers i).rotation_doable

unfoldable pub resource_check : Context → Display → FrameInfo → Bool
resource_check c d f =
    let fb_used = if f.fb_count == zero_int then 0 else 1 in
    not (ltb (sub_int (zero_int + c.max_pipes_per_mixer) (zero_int + fb_used)) f.mdp_count)
    && not (ltb 4 (c.active_sessions + count_index f.layer_count 0 (rotates d f)))

-- A layer of the display processor that is scaled down.
abbrev pub scaled_down : Display → FrameInfo → ℕ → Bool
scaled_down d f i = not (f.is_fb_composed i) && (d.layers i).downscale_required

unfoldable pub hw_limitations_check : Context → Display → FrameInfo → Bool
unfolding any_index
hw_limitations_check c d f =
    not (
      c.a_family
      && any_index f.layer_count 0 (λ i. not (f.is_fb_composed i) && (d.layers i).alpha_scaled))
    && not (
        c.overlap_limited
        && any_index (f.layer_count - 1) 0 (λ i.
          scaled_down d f i
          && any_index (f.layer_count - (i + 1)) (i + 1) (λ j.
            scaled_down d f j
            && is_valid_rect
                (get_intersection (d.layers i).display_frame (d.layers j).display_frame))))

unfoldable pub configured : (Stage → Bool) → List Stage → Bool
configured configure [] = true
configured configure (s ∷ ss) = let rest = configured configure ss in configure s && rest

unfoldable pub set_redraw : Context → Display → FrameInfo → FrameInfo
unfolding is_same_frame
set_redraw c d f = record f {
  needs_redraw = not (is_same_frame d f c.cached) || c.geometry_changed || c.skip_present;
}

-- Whether the frame passes, before the redraw flag is set.
unfoldable pub passes : Context → Display → FrameInfo → Bool
unfolding resource_check hw_limitations_check map_layers all_stages configured
passes c d f =
    let g = map_layers f in
    resource_check c d f
    && hw_limitations_check c d f
    && (ltb f.fb_z zero_int || c.fb_prepare f)
    && c.alloc_pipes g
    && configured c.configure (all_stages c.yuv_split d g)
    && c.validate g

-- Every caller resets a frame that fails, so what the failed attempt wrote to it is left out.
unfoldable pub post_heuristics_handling : Context → Display → FrameInfo → Bool × FrameInfo
unfolding passes map_layers set_redraw
post_heuristics_handling c d f =
    if passes c d f then (true, set_redraw c d (map_layers f)) else (false, f)

-- MDPComp::reset(ctx), of which only the part on the frame is in this model.
unfoldable pub reset_all : Display → FrameInfo → FrameInfo
unfolding reset reset_drops
reset_all d f = reset_drops (reset d.num_app_layers f)

-- The end of a strategy: the split of sources where enabled, the checks, and the reset on failure.
unfoldable pub try_frame : Context → Display → FrameInfo → Bool × FrameInfo
unfolding post_heuristics_handling reset_all
try_frame c d f =
    let r = post_heuristics_handling c d f in if r.0 then r else (false, reset_all d r.1)

unfoldable pub split_sources : Context → Display → FrameInfo → FrameInfo
unfolding adjust_for_source_split
split_sources c d f = if c.yuv_split then adjust_for_source_split d f else f

-- Some layer in [0, n) is marked for the display processor and not supported by it.
abbrev pub unsupported : Display → FrameInfo → Bool
unsupported d f =
    any_index d.num_app_layers 0
      (λ i. not (f.is_fb_composed i) && not (is_supported_for_mdp_comp d.threshold (d.layers i)))

unfoldable pub full_mdp_comp : Context → Display → FrameInfo → Bool × FrameInfo
unfolding is_supported_for_mdp_comp any_index count_mdp try_frame split_sources
full_mdp_comp c d f =
    let marked = count_mdp (record f { fb_count = zero_int; is_fb_composed = f.drop }) in
    if has_bit 0 c.simulation_flags
      || not (c.dpy == 0) && ltb 1 (c.num_hw_layers - 1)
      || any_index d.num_app_layers 0
          (λ i. not (f.drop i) && not (is_supported_for_mdp_comp d.threshold (d.layers i)))
      || c.virtual_yuv
    then (false, f)
    else try_frame c d (split_sources c d marked)

-- After the marks of a strategy with a batch: `none` is out of fuel in getBatch.
unfoldable pub after_batch :
    Context → Display → Bool → Option (Bool × FrameInfo) → Option (Bool × FrameInfo)
unfolding try_frame split_sources reset_all
after_batch c d secondary_limit none = none
after_batch c d secondary_limit (some (false, g)) = some (false, reset_all d g)
after_batch c d secondary_limit (some (true, g)) =
    let h = split_sources c d g in
    if secondary_limit && not (c.dpy == 0) && ltb (zero_int + 1) g.mdp_count
    then some (false, reset_all d h)
    else some (try_frame c d h)

unfoldable pub cache_based_comp : Context → Display → FrameInfo → Option (Bool × FrameInfo)
unfolding reset update_layer_cache update_yuv update_secure_rgb mark_layers_for_caching after_batch
    is_supported_for_mdp_comp any_index reset_all
cache_based_comp c d f =
    let g = update_layer_cache d (reset d.num_app_layers f) in
    let h = update_secure_rgb d (update_yuv d g.drop false g) in
    if has_bit 1 c.simulation_flags
    then some (false, f)
    else if unsupported d g
    then some (false, reset_all d g)
    else after_batch c d true (mark_layers_for_caching d h)

unfoldable pub video_only_comp : Context → Display → Bool → FrameInfo → Bool × FrameInfo
unfolding reset update_yuv try_frame split_sources reset_all
video_only_comp c d secure_only f =
    let start = reset d.num_app_layers f in
    let g =
      update_yuv d f.drop secure_only
        (record start { fb_count = sub_int start.fb_count start.drop_count }) in
    let h = if g.fb_count == zero_int then g else record g { fb_z = g.mdp_count } in
    if has_bit 3 c.simulation_flags
    then (false, f)
    else if not c.yuv_present || g.mdp_count == zero_int || not c.secure_present && secure_only
    then (false, reset_all d g)
    else try_frame c d (split_sources c d h)

unfoldable pub mdp_only_layers_comp :
    Context → Display → Bool → FrameInfo → Option (Bool × FrameInfo)
unfolding reset update_yuv update_secure_rgb mark_layers_for_caching after_batch reset_all
mdp_only_layers_comp c d secure_only f =
    let start = reset d.num_app_layers f in
    let g = update_secure_rgb d (
      update_yuv d f.drop secure_only
        (record start { fb_count = sub_int start.fb_count start.drop_count })) in
    if has_bit 4 c.simulation_flags
    then some (false, f)
    else if not c.secure_present && secure_only
    then some (false, reset_all d f)
    else if g.mdp_count == zero_int
    then some (false, reset_all d g)
    else after_batch c d false (mark_layers_for_caching d g)

-- The loop of loadBasedComp that looks for the first layer that is not supported: its index, and the
-- number of layers before it that are not dropped.
unfoldable pub first_unsupported : Display → FrameInfo → ℕ → ℕ → ℕ → Option (ℕ × ℕ)
unfolding is_supported_for_mdp_comp
first_unsupported d f zero i kept = none
first_unsupported d f (suc n) i kept =
    let next = first_unsupported d f n (i + 1) kept in
    let after = first_unsupported d f n (i + 1) (kept + 1) in
    if f.drop i
    then next
    else if not (is_supported_for_mdp_comp d.threshold (d.layers i))
    then some (i, kept)
    else after

-- The first `batch` layers below `to` that are not dropped go to the display processor.
unfoldable pub mark_batch : ℕ → ℕ → ℕ → FrameInfo → FrameInfo
mark_batch zero i batch f = f
mark_batch (suc n) i batch f =
    let skipped = mark_batch n (i + 1) batch f in
    let taken =
      mark_batch n (i + 1) (batch - 1)
        (record f { is_fb_composed = update (f.is_fb_composed) i false }) in
    if batch == 0 then f else if f.drop i then skipped else taken

-- The attempts with smaller and smaller batches.
unfoldable pub load_attempts : Context → Display → ℕ → ℕ → ℕ → FrameInfo → Bool × FrameInfo
unfolding mark_batch post_heuristics_handling reset_all
load_attempts c d last zero fb f = (false, f)
load_attempts c d last (suc k) fb f =
    let marked = record (mark_batch last 0 (suc k) f) {
      fb_z = zero_int + suc k;
      fb_count = zero_int + fb;
      mdp_count = zero_int + suc k;
    } in
    let r = post_heuristics_handling c d marked in
    let rest = load_attempts c d last k (fb + 1) (reset_all d r.1) in if r.0 then r else rest

-- The batch for the display processor, after the loop that leaves at least two layers
-- to the framebuffer, which takes one of the stages.
unfoldable pub load_batch : ℕ → ℕ → Option (ℕ × ℕ) → ℕ
load_batch stages kept none = min (stages - 1) (kept - 2)
load_batch stages kept (some (i, before)) = min (min before (stages - 1)) (kept - 2)

unfoldable pub load_based_comp : Context → Display → FrameInfo → Bool × FrameInfo
unfolding reset first_unsupported load_batch load_attempts count_index
load_based_comp c d f =
    let n = d.num_app_layers in
    let kept = n - (f.drop_count - zero_int) in
    let found = first_unsupported d f n 0 0 in
    let last : ℕ = elim found [ none ↦ n | some p ↦ p.0 ] in
    let batch = load_batch (min c.max_pipes_per_mixer c.available_pipes) kept found in
    if has_bit 2 c.simulation_flags || not (c.dpy == 0) || c.secure_present || c.yuv_present
    then (false, f)
    else if batch == 0
    then (false, f)
    else load_attempts c d last batch (kept - batch) (reset n f)

unfoldable pub partial_mdp_comp : Context → Display → FrameInfo → Option (Bool × FrameInfo)
unfolding load_based_comp cache_based_comp
partial_mdp_comp c d f =
    let load = load_based_comp c d f in
    let cache = cache_based_comp c d f in
    if not c.mixed_mode || not c.alpha_in_fb
    then some (false, f)
    else if c.skip_present || c.geometry_changed
    then if load.0 then some load else cache_based_comp c d load.1
    else elim cache [ none ↦ none | some r ↦ some (if r.0 then r else load_based_comp c d r.1) ]

unfoldable pub try_video_only : Context → Display → FrameInfo → Bool × FrameInfo
unfolding video_only_comp
try_video_only c d f =
    let r = video_only_comp c d false f in if r.0 then r else video_only_comp c d true r.1
