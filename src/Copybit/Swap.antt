-- ===== src/Copybit/Swap.antt =====
-- hwc_copybit.cpp and hwc_copybit.h: the caches of layers and of drawn regions, and prepareSwapRect,
-- which decides whether only a part of a render buffer is drawn again.
use android_device_casio_dtx.Base.{
  ℕ, zero, suc, ◌+◌, ◌-◌, ◌%◌, Bool, true, false, not, ◌&&◌, ◌||◌, Option, none, some, ltb, ◌==◌,
  if◌then◌else◌, update, is_some, count_index,
}
use android_device_casio_dtx.Geometry.{
  Rect, Layer, zero_int, no_rect, is_valid_rect, is_same_rect, get_union, calculate_dirty_rect,
}

abbrev pub num_render_buffers : ℕ
num_render_buffers = 3

-- A layer with what the functions read of it; `drop` is its element of copybitDrop.
pub record CopyLayer : Type 0 where
  pub handle : Option ℕ
  pub layer : Layer
  pub drop : Bool
  pub needs_scaling : Bool
  pub yuv_buffer : Bool
  pub rotated_90 : Bool

pub record LayerCache : Type 0 where
  pub layer_count : ℕ
  pub hnd : ℕ → Option ℕ
  pub display_frame : ℕ → Rect
  pub drop : ℕ → Bool

pub record FbCache : Type 0 where
  pub fb_dirty_rect : ℕ → Rect
  pub fb_display_rect : ℕ → Rect
  pub fb_index : ℕ

unfoldable pub reset_layer_cache : LayerCache → LayerCache
reset_layer_cache c = record c { hnd = λ k. none; layer_count = 0 }

unfoldable pub update_counts : ℕ → (ℕ → CopyLayer) → LayerCache → LayerCache
update_counts num_app_layers ls c = record c {
  layer_count = num_app_layers;
  hnd = λ k. if ltb k num_app_layers then (ls k).handle else c.hnd k;
  display_frame =
      λ k. if ltb k num_app_layers then (ls k).layer.display_frame else c.display_frame k;
  drop = λ k. if ltb k num_app_layers then (ls k).drop else c.drop k;
}

unfoldable pub reset_fb_cache : FbCache
reset_fb_cache = record {
  fb_dirty_rect = λ i. no_rect;
  fb_display_rect = λ i. no_rect;
  fb_index = 0;
}

unfoldable pub insert_and_update_fb_cache : Rect → Rect → FbCache → FbCache
insert_and_update_fb_cache dirty_rect display_rect c =
    let i = c.fb_index % num_render_buffers in
    record {
      fb_dirty_rect = update c.fb_dirty_rect i dirty_rect;
      fb_display_rect = update c.fb_display_rect i display_rect;
      fb_index = i + 1;
    }

unfoldable pub get_unchanged_fb_dr_count : Rect → Rect → FbCache → ℕ
unfolding is_same_rect count_index
get_unchanged_fb_dr_count dirty_rect display_rect c = count_index num_render_buffers 0 (λ i.
    is_same_rect (c.fb_dirty_rect i) dirty_rect && is_same_rect (c.fb_display_rect i) display_rect)

abbrev same_handle : Option ℕ → Option ℕ → Bool
same_handle none none = true
same_handle none (some h) = false
same_handle (some h) none = false
same_handle (some h) (some h') = h == h'

abbrev same_bool : Bool → Bool → Bool
same_bool true b = b
same_bool false b = not b

unfoldable pub is_layer_changing : LayerCache → (ℕ → CopyLayer) → ℕ → Bool
unfolding is_same_rect
is_layer_changing c ls k =
    not (same_handle (c.hnd k) (ls k).handle)
    || not (same_bool (c.drop k) (ls k).drop)
    || not (is_same_rect (c.display_frame k) (ls k).layer.display_frame)

-- The updating layers so far, and what they change.
pub record Updating : Type 0 where
  pub count : ℕ
  pub dirty : Rect
  pub display : Rect

-- Only a build with QTI_BSP gathers the layers' damage.
unfoldable pub add_updating : Bool → Rect → CopyLayer → Updating → Updating
unfolding get_union calculate_dirty_rect
add_updating qti_bsp full_frame l u = record {
  count = u.count + 1;
  dirty = if qti_bsp then get_union u.dirty (calculate_dirty_rect l.layer full_frame) else u.dirty;
  display = get_union u.display l.layer.display_frame;
}

-- The loop over the layers from the last; the argument counts the layers that are left.
unfoldable pub updating_from : Bool → Rect → LayerCache → (ℕ → CopyLayer) → ℕ → Updating → Updating
unfolding is_layer_changing add_updating
updating_from qti_bsp full_frame c ls zero u = u
updating_from qti_bsp full_frame c ls (suc k) u =
    updating_from qti_bsp full_frame c ls k
      (if is_layer_changing c ls k then add_updating qti_bsp full_frame (ls k) u else u)

abbrev stops_swap : CopyLayer → Bool
stops_swap l = l.needs_scaling || (is_some l.handle && l.yuv_buffer) || l.rotated_90

unfoldable pub swap_is_stopped : ℕ → (ℕ → CopyLayer) → Bool
swap_is_stopped zero ls = false
swap_is_stopped (suc k) ls = if stops_swap (ls k) then true else swap_is_stopped k ls

-- INVALID_DIMENSION on each side.
abbrev pub invalid_rect : Rect
invalid_rect =
    let minus_one = zero_int - 1 in
    record { left = minus_one; top = minus_one; right = minus_one; bottom = minus_one }

-- The cache after a frame with these rectangles, and whether each of its entries has them.
unfoldable pub check_fb_cache : Rect → Rect → FbCache → FbCache × Bool
unfolding get_unchanged_fb_dr_count insert_and_update_fb_cache
check_fb_cache dirty_rect display_rect c =
    if ltb (get_unchanged_fb_dr_count dirty_rect display_rect c) num_render_buffers
    then (insert_and_update_fb_cache dirty_rect display_rect c, false)
    else (c, true)

-- The members of CopyBit that prepareSwapRect changes.
pub record SwapState : Type 0 where
  pub layer_cache : LayerCache
  pub fb_cache : FbCache
  pub dirty_rect : Rect

-- canUseSwapRect is set by an updating layer as well as by none.
unfoldable pub swap_step : ℕ → (ℕ → CopyLayer) → Rect → Rect → SwapState → SwapState × Bool
unfolding check_fb_cache update_counts
swap_step num_app_layers ls dirty display s =
    let (cache, unchanged) = check_fb_cache dirty display s.fb_cache in
    let dirty_now = if unchanged then dirty else no_rect in
    let display_now = if unchanged then display else no_rect in
    (
      record {
        layer_cache = update_counts num_app_layers ls s.layer_cache;
        fb_cache = cache;
        dirty_rect = if is_valid_rect dirty_now then dirty_now else display_now;
      },
      unchanged,
    )

unfoldable pub prepare_swap_rect :
    Bool → Bool → Rect → Bool → ℕ → (ℕ → CopyLayer) → SwapState → SwapState × Bool
unfolding updating_from swap_is_stopped swap_step reset_layer_cache reset_fb_cache update_counts
prepare_swap_rect qti_bsp enabled full_frame geometry_changed num_app_layers ls s =
    let none_yet : Updating = record { count = 0; dirty = no_rect; display = no_rect } in
    let u = updating_from qti_bsp full_frame s.layer_cache ls num_app_layers none_yet in
    let dirty = if u.count == 0 then invalid_rect else u.dirty in
    if not (s.layer_cache.layer_count == num_app_layers) || geometry_changed || not enabled
    then (
      record {
        layer_cache = update_counts num_app_layers ls (reset_layer_cache s.layer_cache);
        fb_cache = reset_fb_cache;
        dirty_rect = no_rect;
      },
      false,
    )
    else if swap_is_stopped num_app_layers ls
    then (record s { fb_cache = reset_fb_cache; dirty_rect = no_rect }, false)
    else swap_step num_app_layers ls dirty u.display s
