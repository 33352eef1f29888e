-- ===== src/Composition/Hidden.antt =====
-- What the layers that validateAndApplyROI drops (hwc_mdpcomp.cpp) would have shown.
use android_device_casio_dtx.Base.{
  ℕ, zero, suc, ◌≤◌, ◌<◌, ◌≡◌, ◌⊎◌, inl, inr, refl, sym, subst, ◌∙◌, ltb, Bool, true, false, not,
  ◌&&◌, ◌||◌, Bool-cases, arith, branch,
}
use android_device_casio_dtx.Geometry.{
  Rect, is_valid_rect, is_same_rect, get_intersection, deduct_rect,
}
use android_device_casio_dtx.Geometry.Cover.{covers, covers_invalid, covers-get_intersection}
use android_device_casio_dtx.Geometry.Deduct.{covers-deduct_rect}
use android_device_casio_dtx.Composition.Marks.{FrameInfo}
use android_device_casio_dtx.Composition.Roi.{
  RoiLayer, frame_at, opaque_at, drop_layer, below, validate_from, validate_and_apply_roi,
}

pub drop_layer-other : (i j : ℕ) (f : FrameInfo) → (i ≡ j → ⊥) → (drop_layer i f).drop j ≡ f.drop j
unfolding drop_layer
drop_layer-other i j f h = ground (arith, h)

-- Where the walk goes through: what held of both of its ways.
split_walk :
    (ls : ℕ → RoiLayer) (i : ℕ) (v : Rect) (f : FrameInfo) (P : Bool × FrameInfo → Type 0)
    → ((not (is_valid_rect v) || not (is_valid_rect (get_intersection v (frame_at ls i)))) ≡ true
        → P (validate_from ls i v (drop_layer i f)))
    → ((r : FrameInfo) → P (false, r))
    → (is_valid_rect (get_intersection v (frame_at ls i)) ≡ true
        → P (validate_from ls i (below ls i v) f))
    → P (validate_from ls (suc i) v f)
unfolding validate_from
split_walk ls i v f P dropped failed shown =
    let res = get_intersection v (frame_at ls i) in
    branch (not (is_valid_rect v) || not (is_valid_rect res)) P _ _ dropped λ a.
      branch (not (is_same_rect res (frame_at ls i)) && (ls i).needs_scaling) P _ _ (λ b. failed _)
        (λ b. shown (ground arith))

pub last_or_lower : (i j : ℕ) → j < suc i → (i ≡ j) ⊎ (j < i)
last_or_lower i j h = elim (Bool-cases (ltb j i)) [
  | inl t ↦ inr (ground arith)
  | inr f ↦ inl (ground arith)
]

module _ (ls : ℕ → RoiLayer) (n x y : ℕ) where
  -- An opaque layer from `lo` on shows the pixel.
  abbrev pub HiddenFrom : ℕ → Type 0
  HiddenFrom lo =
      (k : ℕ) × (lo ≤ k) × (k < n) × (opaque_at ls k ≡ true) × (covers (frame_at ls k) x y ≡ true)

  abbrev pub Seen : ℕ → Rect → Type 0
  Seen i v = (covers v x y ≡ true) ⊎ HiddenFrom i

  untouched :
      (i j : ℕ) (v : Rect) (f : FrameInfo)
      → i ≤ j
      → (validate_from ls i v f).0 ≡ true
      → (validate_from ls i v f).1.drop j ≡ f.drop j
  unfolding validate_from
  untouched zero j v f h = λ e. refl
  untouched (suc i) j v f h =
      split_walk ls i v f (λ (r : Bool × FrameInfo). r.0 ≡ true → r.1.drop j ≡ f.drop j)
        (λ a e.
          untouched i j v (drop_layer i f) (omega arith) e
          ∙ drop_layer-other i j f (λ z. omega arith))
        (λ r e. absurd (ground (arith, e))) (λ a e. untouched i j (below ls i v) f (omega arith) e)

  pub weaker : (lo : ℕ) → HiddenFrom (suc lo) → HiddenFrom lo
  weaker lo (k, l, m, o, c) = (k, omega arith, m, o, c)

  pub later : (i : ℕ) (v : Rect) → Seen (suc i) v → Seen i v
  later i v (inl c) = inl c
  later i v (inr hid) = inr (weaker i hid)

  -- The pixel stays visible below a layer, unless the layer hides it.
  pub below-Seen :
      (i : ℕ) (v : Rect)
      → i < n
      → is_valid_rect (get_intersection v (frame_at ls i)) ≡ true
      → Seen (suc i) v
      → Seen i (below ls i v)
  unfolding below
  below-Seen i v h valid (inr hid) = inr (weaker i hid)
  below-Seen i v h valid (inl c) =
      let rest = deduct_rect v (get_intersection v (frame_at ls i)) in
      let split = covers-deduct_rect v (frame_at ls i) x y valid in
      branch (opaque_at ls i) (Seen i) rest v
        (λ o. elim (Bool-cases (covers rest x y)) [
          | inl t ↦ inl t
          | inr t ↦ inr (i, omega arith, h, o, ground (arith, split.0, c, t))
        ])
        (λ _. inl c)

  pub dropped_hidden :
      (i j : ℕ) (v : Rect)
      → (not (is_valid_rect v) || not (is_valid_rect (get_intersection v (frame_at ls i)))) ≡ true
      → Seen (suc i) v
      → i ≡ j
      → covers (frame_at ls j) x y ≡ true
      → HiddenFrom (suc j)
  dropped_hidden i j v a (inr hid) e c = subst (λ k. HiddenFrom (suc k)) e hid
  dropped_hidden i j v a (inl s) e c =
      let meet = covers-get_intersection v (frame_at ls i) x y in
      let here = subst (λ k. covers (frame_at ls k) x y ≡ true) (sym e) c in
      absurd (
        ground (
          arith,
          a,
          s,
          meet,
          here,
          covers_invalid v x y,
          covers_invalid (get_intersection v (frame_at ls i)) x y,
        ))

  walk :
      (i j : ℕ) (v : Rect) (f : FrameInfo)
      → j < i
      → i ≤ n
      → Seen i v
      → f.drop j ≡ false
      → covers (frame_at ls j) x y ≡ true
      → (validate_from ls i v f).0 ≡ true
      → (validate_from ls i v f).1.drop j ≡ true
      → HiddenFrom (suc j)
  walk zero j v f h m seen kept c = absurd (omega arith)
  walk (suc i) j v f h m seen kept c =
      split_walk ls i v f
        (λ (r : Bool × FrameInfo). r.0 ≡ true → r.1.drop j ≡ true → HiddenFrom (suc j))
        (λ a. elim (last_or_lower i j h) [
          | inl e ↦ λ _ _. dropped_hidden i j v a seen e c
          | inr l ↦
              walk i j v (drop_layer i f) l (omega arith) (later i v seen)
                (drop_layer-other i j f (λ z. omega arith) ∙ kept) c
        ])
        (λ r e. absurd (ground (arith, e)))
        (λ a. elim (last_or_lower i j h) [
          | inl e ↦ λ p q.
              absurd (ground (arith, q, kept, untouched i j (below ls i v) f (omega arith) p))
          | inr l ↦
              walk i j (below ls i v) f l (omega arith) (below-Seen i v (omega arith) a seen) kept c
        ])

-- A layer that validateAndApplyROI drops, when it keeps the region, would have shown nothing: at each
-- pixel of the region that the layer's frame covers, some opaque layer above it, of the layers that
-- take part, covers the pixel too.
pub validate_and_apply_roi-HiddenFrom :
    (ls : ℕ → RoiLayer) (n : ℕ) (roi : Rect) (f : FrameInfo) (j x y : ℕ)
    → j < n
    → f.drop j ≡ false
    → covers roi x y ≡ true
    → covers (frame_at ls j) x y ≡ true
    → (validate_and_apply_roi ls n roi f).0 ≡ true
    → (validate_and_apply_roi ls n roi f).1.drop j ≡ true
    → HiddenFrom ls n x y (suc j)
unfolding validate_and_apply_roi
validate_and_apply_roi-HiddenFrom ls n roi f j x y h kept seen c =
    walk ls n x y n j roi f h (omega arith) (inl seen) kept c
