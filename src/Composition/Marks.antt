-- ===== src/Composition/Marks.antt =====
-- hwc_mdpcomp.cpp: `FrameInfo`, and the functions that mark the layers of a frame for the display
-- processor or for the framebuffer and count them. An int that may be negative is as in
-- Geometry.antt; -1 as an index is `none`. The list of layers is a function of the index.
use android_device_casio_dtx.Base.{
  ℕ, zero, suc, ◌+◌, Bool, true, false, not, ◌&&◌, ◌||◌, Option, none, some, ltb, ◌==◌,
  if◌then◌else◌, update, for_range,
}
use android_device_casio_dtx.Geometry.{zero_int, add_int, sub_int}
use android_device_casio_dtx.Composition.{Frame}
use android_device_casio_dtx.Composition.Batch.{Best, get_batch, minus_one}
use android_device_casio_dtx.Composition.Layers.{
  Layer, is_supported_for_mdp_comp, is_yuv_doable, is_secure_rgb_doable,
}

pub record FrameInfo : Type 0 where
  pub layer_count : ℕ
  pub layer_to_mdp : ℕ → Option ℕ
  pub mdp_count : ℕ
  pub list_index : ℕ → ℕ
  pub fb_count : ℕ
  pub is_fb_composed : ℕ → Bool
  pub drop_count : ℕ
  pub drop : ℕ → Bool
  pub needs_redraw : Bool
  pub fb_z : ℕ

-- What the functions read of the display and of the chip.
pub record Display : Type 0 where
  pub num_app_layers : ℕ
  pub layers : ℕ → Layer
  pub yuv_count : ℕ
  pub yuv_indices : ℕ → ℕ
  pub vg_pipes : ℕ
  pub secure_rgb_count : ℕ
  pub secure_rgb_indices : ℕ → ℕ
  pub can_use_rotator : Bool
  pub threshold : Bool

-- `drop` and `dropCount` are not reset here.
unfoldable pub reset : ℕ → FrameInfo → FrameInfo
reset num_layers f = record f {
  layer_count = num_layers;
  layer_to_mdp = λ i. none;
  mdp_count = zero_int;
  list_index = λ i. 0;
  fb_count = zero_int + num_layers;
  is_fb_composed = λ i. true;
  needs_redraw = true;
  fb_z = minus_one;
}

unfoldable pub reset_drops : FrameInfo → FrameInfo
reset_drops f = record f { drop = λ i. false; drop_count = zero_int }

-- mdpCount = layerCount - fbCount - dropCount
unfoldable pub count_mdp : FrameInfo → FrameInfo
count_mdp f = record f {
  mdp_count = sub_int (sub_int (zero_int + f.layer_count) f.fb_count) f.drop_count;
}

-- A layer of the loop of updateLayerCache.
unfoldable pub cache_step : Display → ℕ → FrameInfo → FrameInfo
cache_step d i f =
    if not (d.layers i).updating
    then record f {
      fb_count = if not (f.drop i) then add_int f.fb_count (zero_int + 1) else f.fb_count;
      is_fb_composed = update (f.is_fb_composed) i true;
    }
    else record f { is_fb_composed = update (f.is_fb_composed) i false }

unfoldable pub update_layer_cache : Display → FrameInfo → FrameInfo
unfolding for_range cache_step count_mdp
update_layer_cache d f =
    count_mdp (for_range d.num_app_layers 0 (cache_step d) (record f { fb_count = zero_int }))

-- The marks of one layer: to the framebuffer, or to the display processor.
unfoldable pub to_fb : ℕ → FrameInfo → FrameInfo
to_fb i f =
    if not (f.is_fb_composed i)
    then record f {
      is_fb_composed = update (f.is_fb_composed) i true;
      fb_count = add_int f.fb_count (zero_int + 1);
    }
    else f

unfoldable pub to_mdp : ℕ → FrameInfo → FrameInfo
to_mdp i f =
    if f.is_fb_composed i
    then record f {
      is_fb_composed = update (f.is_fb_composed) i false;
      fb_count = sub_int f.fb_count (zero_int + 1);
    }
    else f

-- `current_drop` is the `drop` of mCurrentFrame, which need not be the frame that is updated.
unfoldable pub yuv_step : Display → (ℕ → Bool) → Bool → ℕ → FrameInfo → FrameInfo
unfolding to_fb to_mdp is_yuv_doable
yuv_step d current_drop secure_only index f =
    let i = d.yuv_indices index in
    if current_drop i
    then f
    else if not (is_yuv_doable d.can_use_rotator (d.layers i))
    then to_fb i f
    else if not secure_only || (d.layers i).secure_buffer
    then to_mdp i f
    else f

unfoldable pub update_yuv : Display → (ℕ → Bool) → Bool → FrameInfo → FrameInfo
unfolding for_range yuv_step count_mdp
update_yuv d current_drop secure_only f = count_mdp (
    for_range (if ltb d.vg_pipes d.yuv_count then d.vg_pipes else d.yuv_count) 0
      (yuv_step d current_drop secure_only) f)

unfoldable pub secure_rgb_step : Display → ℕ → FrameInfo → FrameInfo
unfolding to_fb to_mdp is_secure_rgb_doable
secure_rgb_step d index f =
    let i = d.secure_rgb_indices index in
    if not (is_secure_rgb_doable d.threshold (d.layers i)) then to_fb i f else to_mdp i f

unfoldable pub update_secure_rgb : Display → FrameInfo → FrameInfo
unfolding for_range secure_rgb_step count_mdp
update_secure_rgb d f = count_mdp (for_range d.secure_rgb_count 0 (secure_rgb_step d) f)

unfoldable pub drop_step : Display → ℕ → FrameInfo → FrameInfo
drop_step d i f =
    if not ((d.layers i).aiv_video || (d.layers i).aiv_cc)
    then record f {
      drop_count = add_int f.drop_count (zero_int + 1);
      drop = update (f.drop) i true;
    }
    else f

unfoldable pub drop_non_aiv_layers : Display → FrameInfo → FrameInfo
unfolding for_range drop_step count_mdp
drop_non_aiv_layers d f =
    let g = for_range d.num_app_layers 0 (drop_step d) f in
    count_mdp (record g { fb_count = sub_int g.fb_count g.drop_count })

-- What getBatch reads.
abbrev pub frame_of : Display → FrameInfo → Frame
frame_of d f = record {
  layer_count = f.layer_count;
  is_fb_composed = f.is_fb_composed;
  drop = f.drop;
  frames = λ i. (d.layers i).display_frame;
}

-- A layer outside the batch that the loop of markLayersForCaching pulls out.
unfoldable pub pulled_out : Best → FrameInfo → ℕ → Bool
pulled_out b f i =
    (ltb (zero_int + i) b.max_start || ltb b.max_end (zero_int + i))
    && f.is_fb_composed i
    && not (f.drop i)

-- The loop, which stops at a layer that the display processor does not support.
unfoldable pub pull_out : Display → Best → ℕ → ℕ → FrameInfo → Bool × FrameInfo
unfolding pulled_out is_supported_for_mdp_comp
pull_out d b zero i f = (true, f)
pull_out d b (suc n) i f =
    let rest = pull_out d b n (i + 1) (
      if pulled_out b f i
      then record f { is_fb_composed = update (f.is_fb_composed) i false }
      else f) in
    if pulled_out b f i && not (is_supported_for_mdp_comp d.threshold (d.layers i))
    then (false, f)
    else rest

-- The counts after the loop.
unfoldable pub batch_counts : Best → FrameInfo → FrameInfo
unfolding count_mdp
batch_counts b f = count_mdp (record f { fb_z = b.fb_z_order; fb_count = zero_int + b.max_count })

unfoldable pub with_batch : Display → FrameInfo → Option Best → Option (Bool × FrameInfo)
unfolding pull_out batch_counts
with_batch d f none = none
with_batch d f (some b) =
    let r = pull_out d b f.layer_count 0 f in some (r.0, if r.0 then batch_counts b r.1 else r.1)

-- `none` is out of fuel in getBatch.
unfoldable pub mark_layers_for_caching : Display → FrameInfo → Option (Bool × FrameInfo)
unfolding with_batch get_batch
mark_layers_for_caching d f =
    if f.fb_count == zero_int
    then some (true, f)
    else if f.mdp_count == zero_int
    then some (false, f)
    else with_batch d f (get_batch (frame_of d f))
