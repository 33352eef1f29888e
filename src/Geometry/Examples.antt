-- ===== src/Geometry/Examples.antt =====
-- The theorems on rectangles at a video frame behind a status bar.
use android_device_casio_dtx.Base.{ℕ, zero, suc, ◌≡◌, refl, true, false, ◌&&◌, ◌||◌, not, [], ◌∷◌}
use android_device_casio_dtx.Geometry.{
  Rect, get_intersection, deduct_rect, Layer, get_non_wormhole_region, zero_int,
}
use android_device_casio_dtx.Geometry.Cover.{covers}
use android_device_casio_dtx.Geometry.Deduct.{covers-deduct_rect}
use android_device_casio_dtx.Geometry.Crop.{Portion, no_orient, CropLayer, optimize_layer_rects}
use android_device_casio_dtx.Geometry.Optimized.{shown, shown-optimize_layer_rects}
use android_device_casio_dtx.Geometry.Regions.{some_covers, covers-get_non_wormhole_region}

-- 720 by 1280 pixels, and the upper 48 lines of it.
abbrev screen : Rect
screen = record { left = zero_int; top = zero_int; right = 2147484368; bottom = 2147484928 }

abbrev bar : Rect
bar = record screen { bottom = 2147483696 }

-- The cut of layers that are not scaled is as many pixels of the crop.
abbrev exact : Portion
exact size cut = cut.0

abbrev plain : Rect → CropLayer
plain r = record { crop = r; frame = r; opaque = true; color_fill = false; transform = no_orient }

-- The screen, the bar on top of it, and the framebuffer's layer.
abbrev stack : ℕ → CropLayer
stack zero = plain screen
stack (suc zero) = plain bar
stack (suc (suc n)) = plain screen

optimized : (optimize_layer_rects exact 3 stack 0).frame ≡ record screen { top = 2147483696 }
unfolding optimize_layer_rects
optimized = refl

optimized_crop : (optimize_layer_rects exact 3 stack 0).crop ≡ record screen { top = 2147483696 }
unfolding optimize_layer_rects
optimized_crop = refl

shown-optimize_layer_rects_example :
    shown 1 (optimize_layer_rects exact 3 stack) 2147483948 2147484048
    ≡ shown 1 stack 2147483948 2147484048
shown-optimize_layer_rects_example = shown-optimize_layer_rects exact 3 stack 2147483948 2147484048

-- A pixel in the middle.
abbrev px : ℕ
px = 2147483948

abbrev py : ℕ
py = 2147484048

covers-deduct_rect_example :
    let rest = deduct_rect screen (get_intersection screen bar) in
    (covers rest px py || covers bar px py ≡ (covers screen px py || covers bar px py))
    × (covers rest px py && not (covers screen px py) ≡ false)
unfolding get_intersection
covers-deduct_rect_example = covers-deduct_rect screen bar px py refl

covers-get_non_wormhole_region_example :
    let nwr = get_non_wormhole_region bar (screen ∷ []) screen in
    (some_covers (bar ∷ screen ∷ []) px py && covers screen px py && not (covers nwr px py) ≡ false)
    × (covers nwr px py && not (covers screen px py) ≡ false)
covers-get_non_wormhole_region_example =
    covers-get_non_wormhole_region bar (screen ∷ []) screen px py

abbrev damaged_layer : Layer
damaged_layer = record { display_frame = screen; source_crop = screen; surface_damage = bar ∷ [] }
