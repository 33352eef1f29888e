-- ===== src/Geometry/Regions.antt =====
-- The regions that are composed from the rectangles of layers (hwc_utils.cpp).
use android_device_casio_dtx.Base.{
  ℕ, ◌≡◌, refl, Bool, true, false, ◌&&◌, ◌||◌, not, List, [], ◌∷◌, if◌then◌else◌, arith,
}
use android_device_casio_dtx.Geometry.{
  Rect, is_valid_rect, move_rect, get_union, unite, get_non_wormhole_region,
}
use android_device_casio_dtx.Geometry.Cover.{covers, covers-get_intersection, covers-get_union}

-- Some rectangle of a list covers the pixel.
abbrev pub some_covers : List Rect → ℕ → ℕ → Bool
some_covers [] x y = false
some_covers (r ∷ rs) x y = covers r x y || some_covers rs x y

abbrev pub is_empty : List Rect → Bool
is_empty [] = true
is_empty (r ∷ rs) = false

-- Some damaged rectangle, moved, covers the pixel.
abbrev pub damaged : List Rect → ℕ → ℕ → ℕ → ℕ → Bool
damaged [] x_off y_off x y = false
damaged (d ∷ ds) x_off y_off x y =
    covers (move_rect d x_off y_off) x y || damaged ds x_off y_off x y

unite-covers :
    (fs : List Rect) (r : Rect) (x y : ℕ)
    → some_covers (r ∷ fs) x y ≡ true
    → covers (unite r fs) x y ≡ true
unfolding unite
unite-covers [] r x y h = ground arith
unite-covers (f ∷ fs) r x y h =
    unite-covers fs (get_union r f) x y (ground (arith, covers-get_union r f x y))

-- Every pixel of the framebuffer that a layer covers is in the region without wormholes, and the
-- region does not leave the framebuffer.
pub covers-get_non_wormhole_region :
    (first : Rect) (frames : List Rect) (fb : Rect) (x y : ℕ)
    → let nwr = get_non_wormhole_region first frames fb in
      (some_covers (first ∷ frames) x y && covers fb x y && not (covers nwr x y) ≡ false)
      × (covers nwr x y && not (covers fb x y) ≡ false)
unfolding get_non_wormhole_region
covers-get_non_wormhole_region first frames fb x y =
    let region = unite first frames in
    conclude (some_covers (first ∷ frames) x y) (covers region x y) (covers fb x y) _
      (unite-covers frames first x y) (covers-get_intersection region fb x y)
  where
    conclude :
        (c u f n : Bool)
        → (c ≡ true → u ≡ true)
        → n ≡ (u && f)
        → (c && f && not n ≡ false) × (n && not f ≡ false)
    conclude true u f n h e = (ground (arith, h refl), ground arith)
    conclude false u f n h e = (refl, ground arith)

abbrev grown : Rect → Rect → Rect
grown i dirty = if is_valid_rect i then get_union i dirty else dirty
