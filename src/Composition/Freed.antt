-- ===== src/Composition/Freed.antt =====
-- Two overlaps and a layer below them in fullMDPCompWithPTOR (hwc_mdpcomp.cpp).
use android_device_casio_dtx.Base.{
  ℕ, ◌<◌, ◌≡◌, refl, sym, ap, subst, ◌∙◌, Bool, true, false, not, ◌&&◌, ◌||◌, ◌⊎◌, inl, inr,
  Bool-cases, ltb, ◌==◌, if◌then◌else◌, branch, update, arith,
}
use android_device_casio_dtx.Geometry.{Rect, no_rect, is_valid_rect, get_intersection, deduct_rect}
use android_device_casio_dtx.Geometry.Cover.{covers, covers_invalid}
use android_device_casio_dtx.Geometry.Deduct.{get_intersection-Part}
use android_device_casio_dtx.Geometry.Crop.{Portion, CropLayer}
use android_device_casio_dtx.Geometry.Optimized.{deduct_rect-Inside, frame-calculate_crop_rects}
use android_device_casio_dtx.Composition.Ptor.{
  is_peripheral, Search, part_overlaps, cut_overlap, apply_overlap, apply_overlaps,
}
use android_device_casio_dtx.Composition.Rest.{rest_of}
use android_device_casio_dtx.Composition.Exact.{
  inside, is_peripheral-across, across_twice, covers-rest_of, get_intersection_comm,
}

frame-cut_overlap :
    (portion : Portion) (overlap : Rect) (l : CropLayer)
    → (cut_overlap portion overlap l).frame ≡ rest_of l.frame overlap
unfolding cut_overlap rest_of
frame-cut_overlap portion overlap l =
    let i = get_intersection l.frame overlap in
    pick (is_valid_rect i) _ _ (λ c.
      frame-calculate_crop_rects portion l.crop l.frame (deduct_rect l.frame i) l.transform
        (deduct_rect-Inside l.frame i (get_intersection-Part l.frame overlap c)))
  where
    pick :
        (v : Bool) (m : CropLayer) (r : Rect)
        → (v ≡ true → m.frame ≡ r)
        → (if v then m else l).frame ≡ (if v then r else l.frame)
    pick true m r f = f refl
    pick false m r f = refl

kept : (v : Bool) (r a : Rect) → v ≡ false → (if v then r else a) ≡ a
kept true r a h = absurd (ground arith)
kept false r a h = refl

get_intersection_invalid :
    (a b : Rect) → is_valid_rect b ≡ false → is_valid_rect (get_intersection a b) ≡ false
unfolding get_intersection
get_intersection_invalid a b h = guard (is_valid_rect a) (is_valid_rect b) _ h
  where
    guard :
        (v w : Bool) (r : Rect)
        → w ≡ false
        → is_valid_rect (if not v || not w then no_rect else r) ≡ false
    guard true true r h = absurd (ground arith)
    guard true false r h = refl
    guard false w r h = refl

rest_invalid : (a b : Rect) → is_valid_rect b ≡ false → rest_of a b ≡ a
unfolding rest_of
rest_invalid a b h =
    kept (is_valid_rect (get_intersection a b)) _ a (get_intersection_invalid a b h)

invalid_rest : (a b : Rect) → is_valid_rect a ≡ false → rest_of a b ≡ a
unfolding rest_of
invalid_rest a b h =
    kept (is_valid_rect (get_intersection a b)) _ a
      (ap (λ r. is_valid_rect r) (get_intersection_comm a b) ∙ get_intersection_invalid b a h)

-- Both cuts together.
covers_twice :
    (p q v a : Rect) (x y : ℕ)
    → is_peripheral p v ≡ true
    → is_peripheral q v ≡ true
    → inside q v ≡ true
    → inside a v ≡ true
    → covers (rest_of (rest_of a p) (rest_of q p)) x y
      ≡ (covers a x y && not (covers p x y || covers q x y))
covers_twice p q v a x y hp hq iq ia =
    let one = covers-rest_of a p x y (is_peripheral-across p v a hp ia) in
    let two = covers-rest_of q p x y (is_peripheral-across p v q hp iq) in
    cases (Bool-cases (is_valid_rect (rest_of a p))) (Bool-cases (is_valid_rect (rest_of q p))) one
      two
  where
    total :
        (a b p q qp r : Bool)
        → a ≡ (b && not p)
        → qp ≡ (q && not p)
        → r ≡ (a && not qp)
        → r ≡ (b && not (p || q))
    total a b p q qp r e f g = ground arith

    alone : (a q : Bool) → q ≡ false → a ≡ (a && not q)
    alone a q e = ground arith

    nothing : (a q : Bool) → a ≡ false → a ≡ (a && not q)
    nothing a q e = ground arith

    cases :
        (is_valid_rect (rest_of a p) ≡ true) ⊎ (is_valid_rect (rest_of a p) ≡ false)
        → (is_valid_rect (rest_of q p) ≡ true) ⊎ (is_valid_rect (rest_of q p) ≡ false)
        → covers (rest_of a p) x y ≡ (covers a x y && not (covers p x y))
        → covers (rest_of q p) x y ≡ (covers q x y && not (covers p x y))
        → covers (rest_of (rest_of a p) (rest_of q p)) x y
          ≡ (covers a x y && not (covers p x y || covers q x y))
    cases (inl va) (inl vq) one two = total _ _ _ _ _ _ one two (
        covers-rest_of (rest_of a p) (rest_of q p) x y
          (across_twice p q v a hp ia iq (is_peripheral-across q v a hq ia) va vq))
    cases (inl va) (inr vq) one two =
        let none = covers_invalid (rest_of q p) x y vq in
        total _ _ _ _ _ _ one two (
          ap (λ r. covers r x y) (rest_invalid (rest_of a p) (rest_of q p) vq)
          ∙ alone (covers (rest_of a p) x y) (covers (rest_of q p) x y) none)
    cases (inr va) vq one two =
        let none = covers_invalid (rest_of a p) x y va in
        total _ _ _ _ _ _ one two (
          ap (λ r. covers r x y) (invalid_rest (rest_of a p) (rest_of q p) va)
          ∙ nothing (covers (rest_of a p) x y) (covers (rest_of q p) x y) none)

-- What part_overlaps leaves to the removal.
record Parts (s : Search) (ls : ℕ → CropLayer) (r : Search × (ℕ → CropLayer)) : Type 0 where
  upper : (r.0).overlap_rect 0 ≡ s.overlap_rect 0
  lower : (r.0).overlap_rect 1 ≡ rest_of (s.overlap_rect 1) (s.overlap_rect 0)
  index : (r.0).layer_index ≡ s.layer_index
  others : (i : ℕ) → i < s.layer_index 1 → (r.1) i ≡ ls i

part_overlaps-Parts : (s : Search) (ls : ℕ → CropLayer) → Parts s ls (part_overlaps s ls)
unfolding part_overlaps rest_of
part_overlaps-Parts s ls =
    let p = s.overlap_rect 0 in
    let q = s.overlap_rect 1 in
    let swap = get_intersection_comm p q in
    branch (is_valid_rect (get_intersection p q)) (λ (r : Search × (ℕ → CropLayer)). Parts s ls r) _
      _
      (λ c. record {
        upper = refl;
        lower =
            ap (λ i. deduct_rect q i) swap
            ∙ sym (
                chosen (is_valid_rect (get_intersection q p)) _ q
                  (ap (λ i. is_valid_rect i) (sym swap) ∙ c));
        index = refl;
        others = λ i h. kept_layer (s.layer_index 1) i _ h;
      })
      (λ c. record {
        upper = refl;
        lower = sym (
            kept (is_valid_rect (get_intersection q p)) _ q
              (ap (λ i. is_valid_rect i) (sym swap) ∙ c));
        index = refl;
        others = λ i h. refl;
      })
  where
    chosen : (v : Bool) (r a : Rect) → v ≡ true → (if v then r else a) ≡ r
    chosen true r a h = refl
    chosen false r a h = absurd (ground arith)

    kept_layer : (n i : ℕ) (m : CropLayer) → i < n → update ls n m i ≡ ls i
    kept_layer n i m h =
        branch (n == i) (λ (l : CropLayer). l ≡ ls i) _ _ (λ c. absurd (ground arith)) (λ _. refl)

below_index : {A : Type 0} (i n : ℕ) (l m : A) → i < n → (if ltb i n then l else m) ≡ l
below_index i n l m h = branch (ltb i n) (λ r. r ≡ l) l m (λ _. refl) (λ c. absurd (ground arith))

-- Below two overlaps, each with three sides on those of the view, a layer within the view keeps
-- exactly the pixels of its frame that neither overlap covers.
pub covers-apply_overlaps :
    (portion : Portion) (places : ℕ → Rect) (s : Search) (ls : ℕ → CropLayer) (v : Rect) (i x y : ℕ)
    → is_peripheral (s.overlap_rect 0) v ≡ true
    → is_peripheral (s.overlap_rect 1) v ≡ true
    → inside (s.overlap_rect 1) v ≡ true
    → inside (ls i).frame v ≡ true
    → i < s.layer_index 1
    → s.layer_index 1 < s.layer_index 0
    → let parted = part_overlaps s ls in
      covers (apply_overlaps portion places (parted.0) 2 (parted.1) i).frame x y ≡ (
        covers (ls i).frame x y
        && not (covers (s.overlap_rect 0) x y || covers (s.overlap_rect 1) x y))
unfolding apply_overlaps apply_overlap
covers-apply_overlaps portion places s ls v i x y hp hq iq ia lo hi =
    let parted = part_overlaps s ls in
    let t = parted.0 in
    let parts = part_overlaps-Parts s ls in
    let one : apply_overlap portion places t 0 (parted.1) i
        ≡ cut_overlap portion (s.overlap_rect 0) (ls i) =
      below_index i (t.layer_index 0) _ _
        (subst (λ (f : ℕ → ℕ). i < f 0) (sym parts.index) (omega arith))
      ∙ rw (parts.upper, parts.others i lo) refl in
    let two : apply_overlaps portion places t 2 (parted.1) i
        ≡ cut_overlap portion (rest_of (s.overlap_rect 1) (s.overlap_rect 0))
            (cut_overlap portion (s.overlap_rect 0) (ls i)) =
      below_index i (t.layer_index 1) _ _ (subst (λ (f : ℕ → ℕ). i < f 1) (sym parts.index) lo)
      ∙ ap (λ (r : Rect). cut_overlap portion r (apply_overlap portion places t 0 (parted.1) i))
          parts.lower
      ∙ ap
          (λ (l : CropLayer). cut_overlap portion (rest_of (s.overlap_rect 1) (s.overlap_rect 0)) l)
          one in
    let frame =
      ap (λ (l : CropLayer). l.frame) two
      ∙ frame-cut_overlap portion (rest_of (s.overlap_rect 1) (s.overlap_rect 0))
          (cut_overlap portion (s.overlap_rect 0) (ls i))
      ∙ ap (λ (r : Rect). rest_of r (rest_of (s.overlap_rect 1) (s.overlap_rect 0)))
          (frame-cut_overlap portion (s.overlap_rect 0) (ls i)) in
    ap (λ (r : Rect). covers r x y) frame
    ∙ covers_twice (s.overlap_rect 0) (s.overlap_rect 1) v (ls i).frame x y hp hq iq ia
