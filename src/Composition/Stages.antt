-- ===== src/Composition/Stages.antt =====
-- hwc_mdpcomp.cpp: FrameInfo::map, adjustForSourceSplit of a display that is not split, and the
-- stages that postHeuristicsHandling gives to the layers of the display processor.
use android_device_casio_dtx.Base.{
  ℕ, zero, suc, ◌+◌, Bool, not, ◌&&◌, Option, some, List, [], ◌∷◌, leb, ◌==◌, if◌then◌else◌, update,
  for_range,
}
use android_device_casio_dtx.Geometry.{zero_int, add_int}
use android_device_casio_dtx.Composition.Marks.{FrameInfo, Display}

-- The loop of `map`: the next index of the display processor, and the frame.
pub record Mapping : Type 0 where
  pub next : ℕ
  pub frame : FrameInfo

unfoldable pub map_step : ℕ → Mapping → Mapping
map_step i s =
    if not (s.frame.is_fb_composed i)
    then record {
      next = s.next + 1;
      frame = record (s.frame) {
        list_index = update (s.frame.list_index) s.next i;
        layer_to_mdp = update (s.frame.layer_to_mdp) i (some (s.next));
      };
    }
    else s

unfoldable pub map_layers : FrameInfo → FrameInfo
unfolding for_range map_step
map_layers f = (for_range f.layer_count 0 map_step record { next = 0; frame = f }).frame

-- mdpNextZOrder, moved past the stage of the framebuffer.
unfoldable pub past_fb : ℕ → ℕ → ℕ
past_fb fb_z next = if zero_int + next == fb_z then next + 1 else next

-- The loop of adjustForSourceSplit.
pub record Splitting : Type 0 where
  pub next : ℕ
  pub fb_z : ℕ
  pub mdp_count : ℕ

unfoldable pub split_step : Display → FrameInfo → ℕ → Splitting → Splitting
unfolding past_fb
split_step d f i s =
    let next = past_fb s.fb_z s.next + 1 in
    if f.is_fb_composed i
    then s
    else if (d.layers i).yuv_split_needed
    then record {
      next = next + 1;
      fb_z = if leb (zero_int + next) s.fb_z then add_int s.fb_z (zero_int + 1) else s.fb_z;
      mdp_count = add_int s.mdp_count (zero_int + 1);
    }
    else record s { next = next }

unfoldable pub adjust_for_source_split : Display → FrameInfo → FrameInfo
unfolding for_range split_step
adjust_for_source_split d f =
    let s =
      for_range f.layer_count 0 (split_step d f)
        record { next = 0; fb_z = f.fb_z; mdp_count = f.mdp_count } in
    if leb zero_int f.fb_z then record f { fb_z = s.fb_z; mdp_count = s.mdp_count } else f

-- A layer with its pipe and its stage; a split layer takes the next stage too.
pub record Stage : Type 0 where
  pub layer : ℕ
  pub mdp_index : Option ℕ
  pub z_order : ℕ
  pub split : Bool

abbrev pub width : Stage → ℕ
width s = if s.split then 2 else 1

-- The layers in the order in which they are configured. `yuv_split` is sEnableYUVsplit.
unfoldable pub stages : Bool → Display → FrameInfo → ℕ → ℕ → ℕ → List Stage
unfolding past_fb
stages yuv_split d f zero i next = []
stages yuv_split d f (suc n) i next =
    let s : Stage = record {
      layer = i;
      mdp_index = f.layer_to_mdp i;
      z_order = past_fb f.fb_z next;
      split = (d.layers i).yuv_split_needed && yuv_split;
    } in
    let skipped = stages yuv_split d f n (i + 1) next in
    let taken = s ∷ stages yuv_split d f n (i + 1) (s.z_order + width s) in
    if not (f.is_fb_composed i) then taken else skipped

unfoldable pub all_stages : Bool → Display → FrameInfo → List Stage
unfolding stages
all_stages yuv_split d f = stages yuv_split d f f.layer_count 0 0
