-- ===== src/Composition/RegionScenes.antt =====
-- The theorems on the regions of a frame, whole and in halves, on two layers.
use android_device_casio_dtx.Base.{
  ℕ, ◌+◌, ◌≡◌, inr, refl, true, false, ◌==◌, if◌then◌else◌, arith, [], ◌∷◌,
}
use android_device_casio_dtx.Geometry.{Rect, zero_int, no_rect}
use android_device_casio_dtx.Geometry.Sanitize.{PanelInfo}
use android_device_casio_dtx.Composition.Marks.{reset}
use android_device_casio_dtx.Composition.Roi.{RoiLayer, validate_and_apply_roi, generate_roi}
use android_device_casio_dtx.Composition.Hidden.{HiddenFrom, validate_and_apply_roi-HiddenFrom}
use android_device_casio_dtx.Composition.Split.{
  Halves, validate_and_apply_split_roi, generate_split_roi, trim_against_roi,
  trim_against_split_roi,
}
use android_device_casio_dtx.Composition.HiddenHalves.{validate_and_apply_split_roi-HiddenFrom}
use android_device_casio_dtx.Composition.Scenes.{strip, blank}

-- A layer over the lower half of a strip, and on top of it an opaque one over all of the strip.
abbrev half : Rect
half = record (strip 0) { top = zero_int + 50 }

abbrev stack : ℕ → RoiLayer
stack i = record {
  layer = record {
    display_frame = if i == 0 then half else strip 0;
    source_crop = strip 0;
    surface_damage = [];
  };
  needs_scaling = false;
  transformed = false;
  yuv_buffer = false;
  blending_none = true;
  plane_alpha = 255;
}

keeps_half : (reset 2 blank).drop 0 ≡ false
unfolding reset
keeps_half = refl

keeps_region : (validate_and_apply_roi stack 2 (strip 0) (reset 2 blank)).0 ≡ true
unfolding validate_and_apply_roi reset
keeps_region = refl

drops_half : (validate_and_apply_roi stack 2 (strip 0) (reset 2 blank)).1.drop 0 ≡ true
unfolding validate_and_apply_roi reset
drops_half = refl

validate_and_apply_roi-HiddenFrom_example : HiddenFrom stack 2 (zero_int + 10) (zero_int + 60) 1
validate_and_apply_roi-HiddenFrom_example =
    validate_and_apply_roi-HiddenFrom stack 2 (strip 0) (reset 2 blank) 0 (zero_int + 10)
      (zero_int + 60) (omega arith) keeps_half refl refl keeps_region drops_half

-- Regions start at multiples of 4 lines, and have multiples of 16 lines and of 8 columns.
abbrev panel : PanelInfo
panel = record {
  left_align = zero_int;
  width_align = zero_int + 8;
  top_align = zero_int + 4;
  height_align = zero_int + 16;
  min_roi_width = zero_int;
  min_roi_height = zero_int + 40;
}

-- Both layers are still, and the lower one is damaged: the region starts at 48, two lines above its
-- frame, and its 52 lines grow to 64.
abbrev damaged : ℕ → RoiLayer
damaged i = record (stack i) {
  layer = record ((stack i).layer) { surface_damage = if i == 0 then [] else no_rect ∷ [] };
}

abbrev screen : Rect
screen = record (strip 0) { bottom = zero_int + 1280 }

region_of_damaged :
    (generate_roi panel damaged 2 screen true screen (reset 2 blank)).0
    ≡ record (strip 0) { top = zero_int + 48; bottom = zero_int + 112 }
unfolding generate_roi reset
region_of_damaged = refl

-- A strip in two halves.
abbrev halves : Halves
halves = record {
  l = record (strip 0) { right = zero_int + 360 };
  r = record (strip 0) { left = zero_int + 360 };
}

keeps_halves : (validate_and_apply_split_roi stack 2 halves (reset 2 blank)).0 ≡ true
unfolding validate_and_apply_split_roi reset
keeps_halves = refl

drops_in_halves : (validate_and_apply_split_roi stack 2 halves (reset 2 blank)).1.drop 0 ≡ true
unfolding validate_and_apply_split_roi reset
drops_in_halves = refl

validate_and_apply_split_roi-HiddenFrom_example :
    HiddenFrom stack 2 (zero_int + 400) (zero_int + 60) 1
validate_and_apply_split_roi-HiddenFrom_example =
    validate_and_apply_split_roi-HiddenFrom stack 2 halves (reset 2 blank) 0 (zero_int + 400)
      (zero_int + 60) (omega arith) keeps_half (inr refl) refl keeps_halves drops_in_halves

-- The halves of the screen have the lines of the region of the whole screen.
regions_of_damaged :
    (generate_split_roi panel true damaged 2
      (zero_int + 360)
      (zero_int + 720)
      (zero_int + 1280)
      true
      halves
      (reset 2 blank)).0
    ≡ record {
      l = record (halves.l) { top = zero_int + 48; bottom = zero_int + 112 };
      r = record (halves.r) { top = zero_int + 48; bottom = zero_int + 112 };
    }
unfolding generate_split_roi reset
regions_of_damaged = refl

-- The framebuffer's frame over the whole screen shrinks to the region, halved or not.
trimmed : trim_against_split_roi halves screen ≡ trim_against_roi (strip 0) screen
unfolding trim_against_split_roi trim_against_roi
trimmed = refl
