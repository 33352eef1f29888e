-- ===== src/Geometry.antt =====
-- libhwcomposer/hwc_utils.cpp: rectangles of layers, which decide what is drawn.
-- An int is held as its distance from the least int, a native number below 2 ^ 32: this keeps the
-- order, `zero_int` stands for 0, and sums and differences wrap.
pub mod Cover
pub mod Deduct
pub mod Regions
pub mod Sanitize
pub mod Crop
pub mod Optimized
pub mod Examples
use android_device_casio_dtx.Base.{
  ℕ, zero, suc, ◌+◌, ◌-◌, ◌%◌, Bool, true, false, ◌&&◌, ◌||◌, not, List, [], ◌∷◌, min, max, ltb,
  leb, ◌==◌, if◌then◌else◌, u32_mod,
}

abbrev pub zero_int : ℕ
zero_int = 2147483648

abbrev pub add_int : ℕ → ℕ → ℕ
add_int a b = (a + b + zero_int) % u32_mod

abbrev pub sub_int : ℕ → ℕ → ℕ
sub_int a b = (a + u32_mod + zero_int - b) % u32_mod

-- `hwc_rect`.
pub record Rect : Type 0 where
  pub left : ℕ
  pub top : ℕ
  pub right : ℕ
  pub bottom : ℕ

abbrev pub no_rect : Rect
no_rect = record { left = zero_int; top = zero_int; right = zero_int; bottom = zero_int }

abbrev pub is_valid_rect : Rect → Bool
is_valid_rect r = ltb r.top r.bottom && ltb r.left r.right

unfoldable pub is_same_rect : Rect → Rect → Bool
is_same_rect a b = a.left == b.left && a.top == b.top && a.right == b.right && a.bottom == b.bottom

unfoldable pub move_rect : Rect → ℕ → ℕ → Rect
move_rect r x_off y_off = if not (is_valid_rect r) then no_rect else record {
  left = add_int r.left x_off;
  top = add_int r.top y_off;
  right = add_int r.right x_off;
  bottom = add_int r.bottom y_off;
}

abbrev pub greater : ℕ → ℕ → ℕ
greater a b = if ltb b a then a else b

abbrev pub smaller : ℕ → ℕ → ℕ
smaller a b = if ltb a b then a else b

unfoldable pub get_intersection : Rect → Rect → Rect
get_intersection a b =
    let res : Rect = record {
      left = greater a.left b.left;
      top = greater a.top b.top;
      right = smaller a.right b.right;
      bottom = smaller a.bottom b.bottom;
    } in
    if not (is_valid_rect a) || not (is_valid_rect b)
    then no_rect
    else if not (is_valid_rect res)
    then no_rect
    else res

unfoldable pub get_union : Rect → Rect → Rect
get_union a b = if not (is_valid_rect a) then b else if not (is_valid_rect b) then a else record {
  left = smaller a.left b.left;
  top = smaller a.top b.top;
  right = greater a.right b.right;
  bottom = greater a.bottom b.bottom;
}

unfoldable pub deduct_rect : Rect → Rect → Rect
deduct_rect a b =
    if a.left == b.left && a.right == b.right
    then if a.top == b.top && leb b.bottom a.bottom
      then record a { top = b.bottom }
      else if a.bottom == b.bottom && leb a.top b.top
      then record a { bottom = b.top }
      else a
    else if a.top == b.top && a.bottom == b.bottom
    then if a.left == b.left && leb b.right a.right
      then record a { left = b.right }
      else if a.right == b.right && leb a.left b.left
      then record a { right = b.left }
      else a
    else a

unfoldable pub are_layers_intersecting : Rect → Rect → Bool
unfolding get_intersection
are_layers_intersecting frame1 frame2 = is_valid_rect (get_intersection frame1 frame2)

-- What a layer says of itself: its frame, its crop in whole pixels, and its damage.
pub record Layer : Type 0 where
  pub display_frame : Rect
  pub source_crop : Rect
  pub surface_damage : List Rect

unfoldable pub layer_updating : Layer → Bool
layer_updating l = elim l.surface_damage [ [] ↦ true | d ∷ ds ↦ is_valid_rect d ]

-- The loop of calculateDirtyRect over the damaged rectangles.
unfoldable pub add_damage : Rect → ℕ → ℕ → List Rect → Rect → Rect
unfolding get_intersection get_union move_rect
add_damage scissor x_off y_off [] dirty = dirty
add_damage scissor x_off y_off (d ∷ ds) dirty =
    let intersect = get_intersection (move_rect d x_off y_off) scissor in
    add_damage scissor x_off y_off ds
      (if is_valid_rect intersect then get_union intersect dirty else dirty)

-- A layer without damage updates its whole frame.
unfoldable pub dirty_of : List Rect → Rect → Rect → ℕ → ℕ → Rect
unfolding get_intersection add_damage
dirty_of [] frame scissor x_off y_off = get_intersection frame scissor
dirty_of (d ∷ ds) frame scissor x_off y_off = add_damage scissor x_off y_off (d ∷ ds) no_rect

unfoldable pub calculate_dirty_rect : Layer → Rect → Rect
unfolding dirty_of
calculate_dirty_rect l scissor =
    dirty_of l.surface_damage l.display_frame scissor
      (sub_int l.display_frame.left l.source_crop.left)
      (sub_int l.display_frame.top l.source_crop.top)

unfoldable pub unite : Rect → List Rect → Rect
unfolding get_union
unite nwr [] = nwr
unite nwr (f ∷ fs) = unite (get_union nwr f) fs

-- The frames of the layers below the framebuffer target, the first apart, and the target's.
unfoldable pub get_non_wormhole_region : Rect → List Rect → Rect → Rect
unfolding get_intersection unite
get_non_wormhole_region first frames fb = get_intersection (unite first frames) fb
