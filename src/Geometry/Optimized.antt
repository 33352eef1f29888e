-- ===== src/Geometry/Optimized.antt =====
-- optimizeLayerRects and what the screen shows (hwc_utils.cpp).
use android_device_casio_dtx.Base.{
  ℕ, zero, suc, ◌-◌, ◌≤◌, ◌≡◌, refl, ap, subst, ◌∙◌, Bool, true, false, not, ◌&&◌, ◌||◌, List, [],
  ◌∷◌, ltb, ◌==◌, if◌then◌else◌, branch, update, arith,
}
use android_device_casio_dtx.Geometry.{Rect, is_valid_rect, get_intersection, deduct_rect}
use android_device_casio_dtx.Geometry.Cover.{covers}
use android_device_casio_dtx.Geometry.Deduct.{Part, get_intersection-Part, covers-deduct_rect}
use android_device_casio_dtx.Geometry.Crop.{
  Portion, Orient, no_orient, calculate_crop_rects, CropLayer, needs_scaling, cut_layer, cut_below,
  optimize_from, optimize_layer_rects,
}

-- `d` does not reach beyond `a`.
pub record Inside (a d : Rect) : Type 0 where
  pub in_left : a.left ≤ d.left
  pub in_right : d.right ≤ a.right
  pub in_top : a.top ≤ d.top
  pub in_bottom : d.bottom ≤ a.bottom

pub deduct_rect-Inside : (a b : Rect) → Part a b → Inside a (deduct_rect a b)
unfolding deduct_rect
deduct_rect-Inside a b part =
    let l = part.left in
    let r = part.right in
    let t = part.top in
    let d = part.bottom in
    let w = part.wide in
    let h = part.high in
    record {
      in_left = ground arith;
      in_right = ground arith;
      in_top = ground arith;
      in_bottom = ground arith;
    }

-- The frame cut to what lies inside it is that.
pub frame-calculate_crop_rects :
    (portion : Portion) (crop a d : Rect) (o : Orient)
    → Inside a d
    → (calculate_crop_rects portion crop a d o).1 ≡ d
unfolding calculate_crop_rects
frame-calculate_crop_rects portion crop a d o i =
    let l : (if ltb a.left d.left then d.left else a.left) ≡ d.left =
      at_least a.left d.left i.in_left in
    let t : (if ltb a.top d.top then d.top else a.top) ≡ d.top = at_least a.top d.top i.in_top in
    let r : (if ltb d.right a.right then d.right else a.right) ≡ d.right =
      at_most a.right d.right i.in_right in
    let b : (if ltb d.bottom a.bottom then d.bottom else a.bottom) ≡ d.bottom =
      at_most a.bottom d.bottom i.in_bottom in
    rw (l, t, r, b) refl
  where
    at_least : (m n : ℕ) → m ≤ n → (if ltb m n then n else m) ≡ n
    at_least m n h = ground arith

    at_most : (m n : ℕ) → n ≤ m → (if ltb n m then n else m) ≡ n
    at_most m n h = ground arith

-- Alike at a pixel.
Alike : ℕ → ℕ → CropLayer → CropLayer → Type 0
Alike x y l m = (l.opaque ≡ m.opaque) × (covers l.frame x y ≡ covers m.frame x y)

-- A cut by a frame on top which does not cover the pixel changes nothing at the pixel.
module _ (portion : Portion) (x y : ℕ) where
  covers-cut_layer :
      (top : Rect) (l : CropLayer)
      → covers top x y ≡ false
      → covers (cut_layer portion top l).frame x y ≡ covers l.frame x y
  unfolding cut_layer
  covers-cut_layer top l off =
      let i = get_intersection l.frame top in
      let v = is_valid_rect i in
      branch (not (needs_scaling l) && v)
        (λ (m : CropLayer). covers m.frame x y ≡ covers l.frame x y) _ _
        (λ c.
          let valid : v ≡ true = ground arith in
          let part = get_intersection-Part l.frame top valid in
          let cut =
            frame-calculate_crop_rects portion l.crop l.frame (deduct_rect l.frame i)
              (if l.color_fill then no_orient else l.transform)
              (deduct_rect-Inside l.frame i part) in
          let split = covers-deduct_rect l.frame top x y valid in
          ap (λ r. covers r x y) cut
          ∙ rest (covers (deduct_rect l.frame i) x y) (covers top x y) (covers l.frame x y)
              (split.0) off)
        (λ _. refl)
    where
      rest : (r t a : Bool) → r || t ≡ (a || t) → t ≡ false → r ≡ a
      rest r t a e f = ground arith

  opaque-cut_layer : (top : Rect) (l : CropLayer) → (cut_layer portion top l).opaque ≡ l.opaque
  unfolding cut_layer
  opaque-cut_layer top l =
      branch (not (needs_scaling l) && is_valid_rect (get_intersection l.frame top))
        (λ (m : CropLayer). m.opaque ≡ l.opaque) _ _ (λ _. refl) (λ _. refl)

  cut_below-Alike :
      (top : Rect) (n : ℕ) (ls : ℕ → CropLayer) (j : ℕ)
      → covers top x y ≡ false
      → Alike x y (cut_below portion top n ls j) (ls j)
  unfolding cut_below Alike
  cut_below-Alike top zero ls j off = (refl, refl)
  cut_below-Alike top (suc n) ls j off =
      let ls' = update ls n (cut_layer portion top (ls n)) in
      let step : Alike x y (ls' j) (ls j) =
        branch (n == j) (λ m. Alike x y m (ls j)) _ _
          (λ c.
            let e : n ≡ j = ground arith in
            subst (λ k. Alike x y (cut_layer portion top (ls n)) (ls k)) e
              (opaque-cut_layer top (ls n), covers-cut_layer top (ls n) off))
          (λ _. (refl, refl)) in
      let ih = cut_below-Alike top n ls' j off in (ih.0 ∙ step.0, ih.1 ∙ step.1)

cut_below_above :
    (portion : Portion) (top : Rect) (n : ℕ) (ls : ℕ → CropLayer) (j : ℕ)
    → n ≤ j
    → cut_below portion top n ls j ≡ ls j
unfolding cut_below
cut_below_above portion top zero ls j h = refl
cut_below_above portion top (suc n) ls j h =
    cut_below_above portion top n _ j (omega arith)
    ∙ branch (n == j) (λ m. m ≡ ls j) _ _ (λ c. absurd (ground arith)) (λ _. refl)

optimize_from_above :
    (portion : Portion) (i : ℕ) (ls : ℕ → CropLayer) (j : ℕ)
    → i ≤ j
    → optimize_from portion i ls j ≡ ls j
unfolding optimize_from
optimize_from_above portion zero ls j h = refl
optimize_from_above portion (suc k) ls j h =
    optimize_from_above portion k _ j (omega arith)
    ∙ branch (ls (suc k)).opaque (λ (ls' : ℕ → CropLayer). ls' j ≡ ls j) _ _
        (λ _. cut_below_above portion (ls (suc k)).frame (suc k) ls j h) (λ _. refl)

-- The layers that show at a pixel, of those up to `i`: from the top down to the first opaque one.
abbrev shown_at : Bool → Bool → ℕ → List ℕ → List ℕ
shown_at covered opaque i rest = if covered then (if opaque then i ∷ [] else i ∷ rest) else rest

unfoldable pub shown : ℕ → (ℕ → CropLayer) → ℕ → ℕ → List ℕ
shown zero ls x y = shown_at (covers (ls 0).frame x y) (ls 0).opaque 0 []
shown (suc k) ls x y =
    shown_at (covers (ls (suc k)).frame x y) (ls (suc k)).opaque (suc k) (shown k ls x y)

shown-Alike :
    (x y k : ℕ) (ls ls' : ℕ → CropLayer)
    → ((j : ℕ) → Alike x y (ls j) (ls' j))
    → shown k ls x y ≡ shown k ls' x y
unfolding shown Alike
shown-Alike x y zero ls ls' h = let e = h 0 in rw (e.1, e.0) refl
shown-Alike x y (suc k) ls ls' h =
    let e = h (suc k) in let rest = shown-Alike x y k ls ls' h in rw (e.1, e.0, rest) refl

shown-optimize_from :
    (portion : Portion) (x y i : ℕ) (ls : ℕ → CropLayer)
    → shown i (optimize_from portion i ls) x y ≡ shown i ls x y
unfolding shown optimize_from
shown-optimize_from portion x y zero ls = refl
shown-optimize_from portion x y (suc k) ls =
    let top = (ls (suc k)).frame in
    let cut = cut_below portion top (suc k) ls in
    let after = λ (m : ℕ → CropLayer). optimize_from portion k m in
    branch (ls (suc k)).opaque
      (λ (m : ℕ → CropLayer). shown (suc k) (after m) x y ≡ shown (suc k) ls x y) _ _
      (λ opaque.
        let kept : after cut (suc k) ≡ ls (suc k) =
          optimize_from_above portion k cut (suc k) (omega arith)
          ∙ cut_below_above portion top (suc k) ls (suc k) (omega arith) in
        let below : covers top x y ≡ false → shown k (after cut) x y ≡ shown k ls x y = λ off.
          shown-optimize_from portion x y k cut
          ∙ shown-Alike x y k cut ls (λ j. cut_below-Alike portion x y top (suc k) ls j off) in
        ap
          (λ (l : CropLayer).
            shown_at (covers l.frame x y) l.opaque (suc k) (shown k (after cut) x y))
          kept
        ∙ hidden (covers top x y) (ls (suc k)).opaque (suc k) _ _ opaque below)
      (λ _.
        let kept = optimize_from_above portion k ls (suc k) (omega arith) in
        let rest = shown-optimize_from portion x y k ls in rw (kept, rest) refl)
  where
    hidden :
        (c o : Bool) (i : ℕ) (l m : List ℕ)
        → o ≡ true
        → (c ≡ false → l ≡ m)
        → shown_at c o i l ≡ shown_at c o i m
    hidden true o i l m e f = rw e refl
    hidden false o i l m e f = f refl

-- The layers that show at a pixel are the same after the rectangles have been optimized.
pub shown-optimize_layer_rects :
    (portion : Portion) (num_hw_layers : ℕ) (ls : ℕ → CropLayer) (x y : ℕ)
    → shown (num_hw_layers - 2) (optimize_layer_rects portion num_hw_layers ls) x y
      ≡ shown (num_hw_layers - 2) ls x y
unfolding optimize_layer_rects
shown-optimize_layer_rects portion num_hw_layers ls x y =
    shown-optimize_from portion x y (num_hw_layers - 2) ls
