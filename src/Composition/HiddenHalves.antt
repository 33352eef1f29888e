-- ===== src/Composition/HiddenHalves.antt =====
-- What the layers that MDPCompSplit::validateAndApplyROI drops (hwc_mdpcomp.cpp) would have shown.
use android_device_casio_dtx.Base.{
  ℕ, zero, suc, ◌≤◌, ◌<◌, ◌≡◌, ◌⊎◌, inl, inr, refl, sym, subst, ◌∙◌, Bool, true, false, not, ◌&&◌,
  ◌||◌, Bool-cases, arith, branch,
}
use android_device_casio_dtx.Geometry.{
  Rect, no_rect, is_valid_rect, is_same_rect, get_intersection, get_union, deduct_rect, greater,
  smaller,
}
use android_device_casio_dtx.Geometry.Cover.{covers}
use android_device_casio_dtx.Composition.Marks.{FrameInfo}
use android_device_casio_dtx.Composition.Roi.{RoiLayer, frame_at, opaque_at, drop_layer, below}
use android_device_casio_dtx.Composition.Split.{
  Halves, below_both, validate_split_from, validate_and_apply_split_roi,
}
use android_device_casio_dtx.Composition.Hidden.{
  HiddenFrom, Seen, later, below-Seen, dropped_hidden, drop_layer-other, last_or_lower,
}

deduct-no_rect :
    (a : Rect) (x y : ℕ) → covers a x y ≡ true → covers (deduct_rect a no_rect) x y ≡ true
unfolding deduct_rect
deduct-no_rect a x y h = ground arith

get_intersection-no_rect :
    (a b : Rect) → is_valid_rect (get_intersection a b) ≡ false → get_intersection a b ≡ no_rect
unfolding get_intersection
get_intersection-no_rect a b =
    let res : Rect = record {
      left = greater a.left b.left;
      top = greater a.top b.top;
      right = smaller a.right b.right;
      bottom = smaller a.bottom b.bottom;
    } in
    let P = λ (r : Rect). is_valid_rect r ≡ false → r ≡ no_rect in
    branch (not (is_valid_rect a) || not (is_valid_rect b)) P _ _ (λ _ _. refl)
      (λ _.
        branch (not (is_valid_rect res)) P _ _ (λ _ _. refl) (λ v n. absurd (ground (arith, v, n))))

abbrev nothing_seen : (ℕ → RoiLayer) → ℕ → Halves → Bool
nothing_seen ls i v =
    (not (is_valid_rect v.l) && not (is_valid_rect v.r))
    || (not (is_valid_rect (get_intersection v.l (frame_at ls i)))
        && not (is_valid_rect (get_intersection v.r (frame_at ls i))))

-- Where the walk goes through: what held of both of its ways.
split_walk :
    (ls : ℕ → RoiLayer) (i : ℕ) (v : Halves) (f : FrameInfo) (P : Bool × FrameInfo → Type 0)
    → (nothing_seen ls i v ≡ true → P (validate_split_from ls i v (drop_layer i f)))
    → ((r : FrameInfo) → P (false, r))
    → P (validate_split_from ls i (below_both ls i v) f)
    → P (validate_split_from ls (suc i) v f)
unfolding validate_split_from
split_walk ls i v f P dropped failed shown =
    let l_res = get_intersection v.l (frame_at ls i) in
    let r_res = get_intersection v.r (frame_at ls i) in
    branch (nothing_seen ls i v) P _ _ dropped λ a.
      branch (not (is_same_rect (get_union l_res r_res) (frame_at ls i)) && (ls i).needs_scaling) P
        _ _ (λ b. failed _) (λ b. shown)

module _ (ls : ℕ → RoiLayer) (n x y : ℕ) where
  abbrev SeenInHalf : ℕ → Halves → Type 0
  SeenInHalf i v = Seen ls n x y i v.l ⊎ Seen ls n x y i v.r

  -- A layer below which the pixel is seen in a half, the layer's part of the half empty or not.
  below-Half : (i : ℕ) (v : Rect) → i < n → Seen ls n x y (suc i) v → Seen ls n x y i (below ls i v)
  unfolding below
  below-Half i v h (inr hid) = later ls n x y i (below ls i v) (inr hid)
  below-Half i v h (inl c) =
      let res = get_intersection v (frame_at ls i) in
      elim (Bool-cases (is_valid_rect res)) [
        | inl t ↦ below-Seen ls n x y i v h t (inl c)
        | inr t ↦
            branch (opaque_at ls i) (Seen ls n x y i) (deduct_rect v res) v
              (λ _. inl (
                subst (λ r. covers (deduct_rect v r) x y ≡ true)
                  (sym (get_intersection-no_rect v (frame_at ls i) t)) (deduct-no_rect v x y c)))
              (λ _. inl c)
      ]

  below_both-Seen :
      (i : ℕ) (v : Halves) → i < n → SeenInHalf (suc i) v → SeenInHalf i (below_both ls i v)
  unfolding below_both
  below_both-Seen i v h (inl s) = inl (below-Half i v.l h s)
  below_both-Seen i v h (inr s) = inr (below-Half i v.r h s)

  later_half : (i : ℕ) (v : Halves) → SeenInHalf (suc i) v → SeenInHalf i v
  later_half i v (inl s) = inl (later ls n x y i v.l s)
  later_half i v (inr s) = inr (later ls n x y i v.r s)

  dropped_half :
      (i j : ℕ) (v : Halves)
      → nothing_seen ls i v ≡ true
      → SeenInHalf (suc i) v
      → i ≡ j
      → covers (frame_at ls j) x y ≡ true
      → HiddenFrom ls n x y (suc j)
  dropped_half i j v a (inl s) = dropped_hidden ls n x y i j v.l (ground arith) s
  dropped_half i j v a (inr s) = dropped_hidden ls n x y i j v.r (ground arith) s

  untouched :
      (i j : ℕ) (v : Halves) (f : FrameInfo)
      → i ≤ j
      → (validate_split_from ls i v f).0 ≡ true
      → (validate_split_from ls i v f).1.drop j ≡ f.drop j
  unfolding validate_split_from
  untouched zero j v f h = λ e. refl
  untouched (suc i) j v f h =
      split_walk ls i v f (λ (r : Bool × FrameInfo). r.0 ≡ true → r.1.drop j ≡ f.drop j)
        (λ a e.
          untouched i j v (drop_layer i f) (omega arith) e
          ∙ drop_layer-other i j f (λ z. omega arith))
        (λ r e. absurd (ground (arith, e)))
        (λ e. untouched i j (below_both ls i v) f (omega arith) e)

  walk :
      (i j : ℕ) (v : Halves) (f : FrameInfo)
      → j < i
      → i ≤ n
      → SeenInHalf i v
      → f.drop j ≡ false
      → covers (frame_at ls j) x y ≡ true
      → (validate_split_from ls i v f).0 ≡ true
      → (validate_split_from ls i v f).1.drop j ≡ true
      → HiddenFrom ls n x y (suc j)
  walk zero j v f h m seen kept c = absurd (omega arith)
  walk (suc i) j v f h m seen kept c =
      split_walk ls i v f
        (λ (r : Bool × FrameInfo). r.0 ≡ true → r.1.drop j ≡ true → HiddenFrom ls n x y (suc j))
        (λ a. elim (last_or_lower i j h) [
          | inl e ↦ λ _ _. dropped_half i j v a seen e c
          | inr l ↦
              walk i j v (drop_layer i f) l (omega arith) (later_half i v seen)
                (drop_layer-other i j f (λ z. omega arith) ∙ kept) c
        ])
        (λ r e. absurd (ground (arith, e)))
        (elim (last_or_lower i j h) [
          | inl e ↦ λ p q.
              absurd (ground (arith, q, kept, untouched i j (below_both ls i v) f (omega arith) p))
          | inr l ↦
              walk i j (below_both ls i v) f l (omega arith)
                (below_both-Seen i v (omega arith) seen) kept c
        ])

-- On a split display, a layer that validateAndApplyROI drops, when it keeps the regions, would have
-- shown nothing: at each pixel of either half's region that the layer's frame covers, some opaque
-- layer above it, of the layers that take part, covers the pixel too.
pub validate_and_apply_split_roi-HiddenFrom :
    (ls : ℕ → RoiLayer) (n : ℕ) (roi : Halves) (f : FrameInfo) (j x y : ℕ)
    → j < n
    → f.drop j ≡ false
    → (covers roi.l x y ≡ true) ⊎ (covers roi.r x y ≡ true)
    → covers (frame_at ls j) x y ≡ true
    → (validate_and_apply_split_roi ls n roi f).0 ≡ true
    → (validate_and_apply_split_roi ls n roi f).1.drop j ≡ true
    → HiddenFrom ls n x y (suc j)
unfolding validate_and_apply_split_roi
validate_and_apply_split_roi-HiddenFrom ls n roi f j x y h kept seen c =
    walk ls n x y n j roi f h (omega arith)
      (elim seen [ inl l ↦ inl (inl l) | inr r ↦ inr (inl r) ]) kept c
