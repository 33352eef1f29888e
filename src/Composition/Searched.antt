-- ===== src/Composition/Searched.antt =====
-- What the search of fullMDPCompWithPTOR finds (hwc_mdpcomp.cpp).
use android_device_casio_dtx.Base.{
  ℕ, zero, suc, ◌+◌, ◌*◌, ◌≤◌, ◌<◌, ◌≡◌, refl, ap, ◌∙◌, Bool, true, false, not, ◌&&◌, ◌||◌, ltb,
  ◌==◌, if◌then◌else◌, branch, update, arith,
}
use android_device_casio_dtx.Geometry.{Rect}
use android_device_casio_dtx.Geometry.Cover.{covers}
use android_device_casio_dtx.Geometry.Crop.{Portion, CropLayer}
use android_device_casio_dtx.Composition.Ptor.{
  is_peripheral, Search, no_search, is_ptor, find_step, find_from, PtorFrame, find_ptor,
  part_overlaps, apply_overlaps,
}
use android_device_casio_dtx.Composition.Exact.{inside}
use android_device_casio_dtx.Composition.Freed.{covers-apply_overlaps}

-- What was found among the layers from `n` on.
record Finds (v : Rect) (ls : ℕ → CropLayer) (n : ℕ) (s : Search) : Type 0 where
  edges : (k : ℕ) → k < s.count → is_peripheral (s.overlap_rect k) v ≡ true
  frames : (k : ℕ) → k < s.count → s.overlap_rect k ≡ (ls (s.layer_index k)).frame
  bounds : (k : ℕ) → k < s.count → n ≤ s.layer_index k
  order : 1 < s.count → s.layer_index 1 < s.layer_index 0

is_ptor-peripheral :
    (v : Rect) (area : ℕ) (ls : ℕ → CropLayer) (i pixels : ℕ)
    → is_ptor v area ls i pixels ≡ true
    → is_peripheral (ls i).frame v ≡ true
unfolding is_ptor
is_ptor-peripheral v area ls i pixels h = first (is_peripheral (ls i).frame v) _ _ _ h
  where
    first : (a b c d : Bool) → a && b && c && d ≡ true → a ≡ true
    first a b c d h = ground arith

find_step-Finds :
    (v : Rect) (area : ℕ) (ls : ℕ → CropLayer) (i : ℕ) (s : Search)
    → Finds v ls (suc i) s
    → Finds v ls i (find_step v area ls i s)
unfolding find_step
find_step-Finds v area ls i s f =
    branch (is_ptor v area ls i s.pixel_count) (λ (t : Search). Finds v ls i t) _ _
      (λ c. record {
        edges = λ k h.
            branch (s.count == k) (λ (r : Rect). is_peripheral r v ≡ true) _ _
              (λ _. is_ptor-peripheral v area ls i s.pixel_count c) (λ d. f.edges k (older k h d));
        frames = λ k h. agree k h (s.count == k) refl;
        bounds = λ k h.
            branch (s.count == k) (λ (n : ℕ). i ≤ n) _ _ (λ _. omega arith)
              (λ d. let b = f.bounds k (older k h d) in omega arith);
        order = λ h. last h;
      })
      (λ _. record {
        edges = f.edges;
        frames = f.frames;
        bounds = λ k h. let b = f.bounds k h in omega arith;
        order = f.order;
      })
  where
    older : (k : ℕ) → k < s.count + 1 → (s.count == k) ≡ false → k < s.count
    older k h d = ground arith

    agree :
        (k : ℕ)
        → k < s.count + 1
        → (b : Bool) → (s.count == k) ≡ b
        → (if b then (ls i).frame else s.overlap_rect k)
          ≡ (ls (if b then i else s.layer_index k)).frame
    agree k h true d = refl
    agree k h false d = f.frames k (older k h d)

    last : 1 < s.count + 1 → update s.layer_index s.count i 1 < update s.layer_index s.count i 0
    last h =
        let b = f.bounds 0 (omega arith) in
        branch (s.count == 0) (λ (n : ℕ). update s.layer_index s.count i 1 < n) _ _
          (λ d. absurd (ground arith))
          (λ d.
            branch (s.count == 1) (λ (n : ℕ). n < s.layer_index 0) _ _ (λ _. omega arith)
              (λ e. f.order (older 1 h e)))

find_from-Finds :
    (v : Rect) (area : ℕ) (ls : ℕ → CropLayer) (n : ℕ) (s : Search)
    → Finds v ls n s
    → Finds v ls 0 (find_from v area ls n s)
unfolding find_from
find_from-Finds v area ls zero s f = f
find_from-Finds v area ls (suc i) s f = find_from-Finds v area ls i _ (
    branch (ltb s.count 2) (λ (t : Search). Finds v ls i t) _ _
      (λ _. find_step-Finds v area ls i s f)
      (λ _. record {
        edges = f.edges;
        frames = f.frames;
        bounds = λ k h. let b = f.bounds k h in omega arith;
        order = f.order;
      }))

find_ptor-Finds : (c : PtorFrame) (ls : ℕ → CropLayer) → Finds c.view_frame ls 0 (find_ptor c ls)
unfolding find_ptor
find_ptor-Finds c ls =
    find_from-Finds c.view_frame (c.xres * c.yres) ls c.num_app_layers no_search (record {
      edges = λ k h. absurd (omega arith);
      frames = λ k h. absurd (omega arith);
      bounds = λ k h. absurd (omega arith);
      order = λ h. absurd (omega arith);
    })

-- Where the search finds two layers, and the lower one is within the view, a layer below both and
-- within the view keeps exactly the pixels of its frame that neither of the two covers.
pub covers-find_ptor :
    (c : PtorFrame) (portion : Portion) (places : ℕ → Rect) (ls : ℕ → CropLayer) (i x y : ℕ)
    → (find_ptor c ls).count ≡ 2
    → inside (ls ((find_ptor c ls).layer_index 1)).frame c.view_frame ≡ true
    → inside (ls i).frame c.view_frame ≡ true
    → i < (find_ptor c ls).layer_index 1
    → let s = find_ptor c ls in
      let parted = part_overlaps s ls in
      covers (apply_overlaps portion places (parted.0) s.count (parted.1) i).frame x y ≡ (
        covers (ls i).frame x y
        && not (covers (ls (s.layer_index 0)).frame x y || covers (ls (s.layer_index 1)).frame x y))
covers-find_ptor c portion places ls i x y two inner ia lo =
    let s = find_ptor c ls in
    let f = find_ptor-Finds c ls in
    let parted = part_overlaps s ls in
    let e0 = f.frames 0 (omega arith) in
    let e1 = f.frames 1 (omega arith) in
    ap (λ (n : ℕ). covers (apply_overlaps portion places (parted.0) n (parted.1) i).frame x y) two
    ∙ covers-apply_overlaps portion places s ls c.view_frame i x y (f.edges 0 (omega arith))
        (f.edges 1 (omega arith)) (ap (λ (r : Rect). inside r c.view_frame) e1 ∙ inner) ia lo
        (f.order (omega arith))
    ∙ ap
        (λ (r : Rect).
          covers (ls i).frame x y && not (covers r x y || covers (s.overlap_rect 1) x y))
        e0
    ∙ ap
        (λ (r : Rect).
          covers (ls i).frame x y && not (covers (ls (s.layer_index 0)).frame x y || covers r x y))
        e1
