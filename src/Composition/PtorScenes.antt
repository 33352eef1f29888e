-- ===== src/Composition/PtorScenes.antt =====
-- fullMDPCompWithPTOR on a screen with two bars.
use android_device_casio_dtx.Base.{
  ℕ, zero, suc, ◌+◌, ◌≡◌, refl, true, false, ◌&&◌, ◌||◌, not, arith,
}
use android_device_casio_dtx.Geometry.{Rect, zero_int, get_intersection, is_valid_rect}
use android_device_casio_dtx.Geometry.Cover.{covers}
use android_device_casio_dtx.Geometry.Crop.{Portion, no_orient, CropLayer}
use android_device_casio_dtx.Composition.Ptor.{PtorFrame, find_ptor, part_overlaps, apply_overlaps}
use android_device_casio_dtx.Composition.Searched.{covers-find_ptor}

abbrev exact : Portion
exact size cut = cut.0

abbrev area : ℕ → ℕ → ℕ → ℕ → Rect
area l t r b = record {
  left = zero_int + l;
  top = zero_int + t;
  right = zero_int + r;
  bottom = zero_int + b;
}

abbrev screen : Rect
screen = area 0 0 720 1280

abbrev plain : Rect → CropLayer
plain r = record { crop = r; frame = r; opaque = false; color_fill = false; transform = no_orient }

-- The screen, a bar of 100 lines over it, and one of 48 lines on top.
abbrev bars : ℕ → CropLayer
bars zero = plain screen
bars (suc zero) = plain (area 0 0 720 100)
bars (suc (suc n)) = plain (area 0 0 720 48)

abbrev three : PtorFrame
three = record {
  dpy = 0;
  has_copybit = true;
  num_app_layers = 3;
  stages_for_mdp = 4;
  skip_present = false;
  yuv_present = false;
  secure_present = false;
  drop_count = zero_int;
  supported = λ i. true;
  virtual_yuv = false;
  view_frame = screen;
  xres = 720;
  yres = 1280;
}

both_found : (find_ptor three bars).count ≡ 2
unfolding find_ptor
both_found = refl

-- The lower bar keeps what the upper leaves of it, and the screen what both leave.
parted_bar : ((part_overlaps (find_ptor three bars) bars).0).overlap_rect 1 ≡ area 0 48 720 100
unfolding part_overlaps find_ptor
parted_bar = refl

freed_screen :
    let parted = part_overlaps (find_ptor three bars) bars in
    (apply_overlaps exact (λ k. screen) (parted.0) 2 (parted.1) 0).frame ≡ area 0 100 720 1280
unfolding part_overlaps find_ptor apply_overlaps
freed_screen = refl

covers-find_ptor_example :
    let s = find_ptor three bars in
    let parted = part_overlaps s bars in
    covers
      (apply_overlaps exact (λ k. screen) (parted.0) s.count (parted.1) 0).frame
      2147483648
      2147483708
    ≡ (covers (bars 0).frame 2147483648 2147483708
        && not (
            covers (bars (s.layer_index 0)).frame 2147483648 2147483708
            || covers (bars (s.layer_index 1)).frame 2147483648 2147483708))
unfolding find_ptor
covers-find_ptor_example =
    covers-find_ptor three exact (λ k. screen) bars 0 2147483648 2147483708 both_found refl refl
      (omega arith)

-- A bar along the side meets the bar on top in a corner, which stays with the bar on top.
abbrev corner : ℕ → CropLayer
corner zero = plain screen
corner (suc zero) = plain (area 0 0 100 1280)
corner (suc (suc n)) = plain (area 0 0 720 48)

corner_is_parted :
    let s = (part_overlaps (find_ptor three corner) corner).0 in
    (s.count ≡ 2) × (is_valid_rect (get_intersection (s.overlap_rect 0) (s.overlap_rect 1)) ≡ false)
unfolding part_overlaps find_ptor get_intersection
corner_is_parted = (refl, refl)
