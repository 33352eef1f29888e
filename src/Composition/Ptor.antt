-- ===== src/Composition/Ptor.antt =====
-- hwc_mdpcomp.cpp: fullMDPCompWithPTOR, where the copy engine composes at most two layers at the
-- edge of the screen with what they overlap. The answers about the whole frame are fields, and
-- prepareOverlap, of hwc_copybit.cpp, is a parameter: it answers the places in the render buffer.
use android_device_casio_dtx.Base.{
  ℕ, zero, suc, ◌+◌, ◌*◌, ◌%◌, Bool, true, false, not, ◌&&◌, ◌||◌, Option, none, some, ltb, ◌==◌,
  if◌then◌else◌, update, sub32, add32, u32_mod,
}
use android_device_casio_dtx.Geometry.{
  zero_int, sub_int, Rect, no_rect, is_valid_rect, get_intersection, deduct_rect,
}
use android_device_casio_dtx.Geometry.Crop.{
  Portion, no_orient, CropLayer, needs_scaling, calculate_crop_rects,
}
use android_device_casio_dtx.Composition.Batch.{minus_one}
use android_device_casio_dtx.Composition.Marks.{FrameInfo}

abbrev pub one_if : Bool → ℕ
one_if b = if b then 1 else 0

unfoldable pub is_peripheral : Rect → Rect → Bool
is_peripheral r v =
    one_if (r.left == v.left)
      + one_if (r.top == v.top)
      + one_if (r.right == v.right)
      + one_if (r.bottom == v.bottom)
    == 3

unfoldable pub has_90_transform : CropLayer → Bool
has_90_transform l = l.transform.rot_90 && not l.color_fill

-- minLayerIndex, overlapRect and minPixelCount; -1, as an index, is 2 ^ 32 - 1.
pub record Search : Type 0 where
  pub count : ℕ
  pub layer_index : ℕ → ℕ
  pub overlap_rect : ℕ → Rect
  pub pixel_count : ℕ

abbrev pub no_search : Search
no_search = record {
  count = 0;
  layer_index = λ k. 4294967295;
  overlap_rect = λ k. no_rect;
  pixel_count = 0;
}

unfoldable pub hits : Rect → CropLayer → Bool
unfolding get_intersection
hits frame below = is_valid_rect (get_intersection frame below.frame)

-- The loop over the layers below, from the top.
unfoldable pub qualifies : Rect → ℕ → (ℕ → CropLayer) → Bool → Bool
unfolding hits has_90_transform needs_scaling
qualifies frame zero ls found = found
qualifies frame (suc j) ls found =
    let rest = qualifies frame j ls (found || hits frame (ls j)) in
    if hits frame (ls j) && (has_90_transform (ls j) || needs_scaling (ls j)) then false else rest

unfoldable pub crop_pixels : CropLayer → ℕ
crop_pixels l = sub32 l.crop.right l.crop.left * sub32 l.crop.bottom l.crop.top % u32_mod

-- 3 * pixels > area, as ints.
unfoldable pub too_large : ℕ → ℕ → Bool
too_large pixels area = ltb ((area + zero_int) % u32_mod) ((3 * pixels + zero_int) % u32_mod)

unfoldable pub is_ptor : Rect → ℕ → (ℕ → CropLayer) → ℕ → ℕ → Bool
unfolding is_peripheral has_90_transform too_large crop_pixels qualifies
is_ptor view_frame area ls i pixels =
    is_peripheral (ls i).frame view_frame
    && not (has_90_transform (ls i))
    && not (too_large (crop_pixels (ls i) + pixels) area)
    && qualifies (ls i).frame i ls false

unfoldable pub find_step : Rect → ℕ → (ℕ → CropLayer) → ℕ → Search → Search
unfolding is_ptor crop_pixels
find_step view_frame area ls i s =
    if is_ptor view_frame area ls i s.pixel_count
    then record {
      count = s.count + 1;
      layer_index = update s.layer_index s.count i;
      overlap_rect = update s.overlap_rect s.count (ls i).frame;
      pixel_count = add32 s.pixel_count (crop_pixels (ls i));
    }
    else s

-- The loop from the top layer on, which stops at two.
unfoldable pub find_from : Rect → ℕ → (ℕ → CropLayer) → ℕ → Search → Search
unfolding find_step
find_from view_frame area ls zero s = s
find_from view_frame area ls (suc i) s =
    find_from view_frame area ls i (if ltb s.count 2 then find_step view_frame area ls i s else s)

-- The upper of two layers keeps what both cover.
unfoldable pub part_overlaps : Search → (ℕ → CropLayer) → Search × (ℕ → CropLayer)
unfolding get_intersection deduct_rect
part_overlaps s ls =
    let common = get_intersection (s.overlap_rect 0) (s.overlap_rect 1) in
    let lower = deduct_rect (s.overlap_rect 1) common in
    if is_valid_rect common
    then (
      record s { overlap_rect = update s.overlap_rect 1 lower },
      update ls (s.layer_index 1) (record (ls (s.layer_index 1)) { frame = lower }),
    )
    else (s, ls)

unfoldable pub cut_overlap : Portion → Rect → CropLayer → CropLayer
unfolding get_intersection deduct_rect calculate_crop_rects
cut_overlap portion overlap l =
    let irect = get_intersection l.frame overlap in
    let r = calculate_crop_rects portion l.crop l.frame (deduct_rect l.frame irect) l.transform in
    if is_valid_rect irect then record l { crop = r.0; frame = r.1 } else l

-- The layer itself takes its place in the render buffer, and the overlap is removed from those
-- below.
unfoldable pub apply_overlap : Portion → (ℕ → Rect) → Search → ℕ → (ℕ → CropLayer) → ℕ → CropLayer
unfolding cut_overlap
apply_overlap portion places s k ls i =
    if ltb i (s.layer_index k)
    then cut_overlap portion (s.overlap_rect k) (ls i)
    else if i == s.layer_index k
    then record (ls i) { crop = places k; opaque = true; transform = no_orient }
    else ls i

-- The first `n` of the layers that were found.
unfoldable pub apply_overlaps : Portion → (ℕ → Rect) → Search → ℕ → (ℕ → CropLayer) → ℕ → CropLayer
unfolding apply_overlap
apply_overlaps portion places s zero ls = ls
apply_overlaps portion places s (suc k) ls =
    apply_overlap portion places s k (apply_overlaps portion places s k ls)

-- What is asked about the frame and the display.
pub record PtorFrame : Type 0 where
  pub dpy : ℕ
  pub has_copybit : Bool
  pub num_app_layers : ℕ
  pub stages_for_mdp : ℕ
  pub skip_present : Bool
  pub yuv_present : Bool
  pub secure_present : Bool
  pub drop_count : ℕ
  pub supported : ℕ → Bool
  pub virtual_yuv : Bool
  pub view_frame : Rect
  pub xres : ℕ
  pub yres : ℕ

unfoldable pub all_supported : (ℕ → Bool) → ℕ → Bool
all_supported supported zero = true
all_supported supported (suc n) = all_supported supported n && supported n

unfoldable pub ptor_allowed : PtorFrame → Bool
unfolding all_supported
ptor_allowed c =
    c.dpy == 0
    && c.has_copybit
    && not (ltb c.stages_for_mdp c.num_app_layers)
    && not (c.skip_present || c.yuv_present || not (c.drop_count == zero_int) || c.secure_present)
    && all_supported c.supported c.num_app_layers
    && not c.virtual_yuv

unfoldable pub find_ptor : PtorFrame → (ℕ → CropLayer) → Search
unfolding find_from
find_ptor c ls = find_from c.view_frame (c.xres * c.yres) ls c.num_app_layers no_search

-- The layers as the checks after it see them, or `none` where the mode is not used.
unfoldable pub ptor_layers :
    PtorFrame
    → Portion
    → (Search → (ℕ → CropLayer) → Option (ℕ → Rect))
    → (ℕ → CropLayer)
    → Option (Search × (ℕ → CropLayer))
unfolding ptor_allowed find_ptor part_overlaps apply_overlaps
ptor_layers c portion prepare_overlap ls =
    let s = find_ptor c ls in
    let parted = part_overlaps s ls in
    if not (ptor_allowed c) || s.count == 0
    then none
    else elim (prepare_overlap (parted.0) (parted.1)) [
      | none ↦ none
      | some places ↦ some (parted.0, apply_overlaps portion places (parted.0) s.count (parted.1))
    ]

unfoldable pub mark_ptor_from : (ℕ → CropLayer) → ℕ → FrameInfo → FrameInfo
mark_ptor_from ls zero f = f
mark_ptor_from ls (suc j) f =
    let g = mark_ptor_from ls j f in
    if is_valid_rect (ls j).frame
    then record g { is_fb_composed = update g.is_fb_composed j false }
    else record g { mdp_count = sub_int g.mdp_count (zero_int + 1); drop = update g.drop j true }

unfoldable pub mark_ptor : ℕ → (ℕ → CropLayer) → FrameInfo → FrameInfo
unfolding mark_ptor_from
mark_ptor num_app_layers ls f =
    mark_ptor_from ls num_app_layers
      (record f { mdp_count = zero_int + num_app_layers; fb_count = zero_int; fb_z = minus_one })
