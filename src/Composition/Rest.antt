-- ===== src/Composition/Rest.antt =====
-- What deductRect leaves of a frame when the part along one of its edges is cut off
-- (hwc_utils.cpp).
use android_device_casio_dtx.Base.{
  ℕ, ◌≤◌, ◌<◌, ◌≡◌, refl, subst, ◌∙◌, true, false, if◌then◌else◌, branch, arith,
}
use android_device_casio_dtx.Geometry.{
  Rect, greater, smaller, is_valid_rect, get_intersection, deduct_rect,
}

-- What is left of a frame.
unfoldable pub rest_of : Rect → Rect → Rect
unfolding get_intersection deduct_rect
rest_of a p =
    if is_valid_rect (get_intersection a p) then deduct_rect a (get_intersection a p) else a

-- The sides of a rectangle.
pub record Sides (r : Rect) (l t rt b : ℕ) : Type 0 where
  pub is_left : r.left ≡ l
  pub is_top : r.top ≡ t
  pub is_right : r.right ≡ rt
  pub is_bottom : r.bottom ≡ b

meet :
    (a p : Rect)
    → is_valid_rect (get_intersection a p) ≡ true
    → Sides
        (get_intersection a p)
        (greater a.left p.left)
        (greater a.top p.top)
        (smaller a.right p.right)
        (smaller a.bottom p.bottom)
unfolding get_intersection
meet a p v = record {
  is_left = ground arith;
  is_top = ground arith;
  is_right = ground arith;
  is_bottom = ground arith;
}

miss_vertical :
    (a p : Rect)
    → is_valid_rect (get_intersection a p) ≡ false
    → is_valid_rect a ≡ true
    → p.left ≤ a.left
    → a.right ≤ p.right
    → (p.top ≤ a.top → a.top ≡ greater a.top p.bottom)
      × (a.bottom ≤ p.bottom → a.bottom ≡ smaller a.bottom p.top)
unfolding get_intersection
miss_vertical a p v w l r = ((λ t. ground arith), (λ b. ground arith))

miss_horizontal :
    (a p : Rect)
    → is_valid_rect (get_intersection a p) ≡ false
    → is_valid_rect a ≡ true
    → p.top ≤ a.top
    → a.bottom ≤ p.bottom
    → (p.left ≤ a.left → a.left ≡ greater a.left p.right)
      × (a.right ≤ p.right → a.right ≡ smaller a.right p.left)
unfolding get_intersection
miss_horizontal a p v w l r = ((λ t. ground arith), (λ b. ground arith))

deduct_vertical :
    (a i : Rect)
    → i.left ≡ a.left
    → i.right ≡ a.right
    → i.top < i.bottom
    → is_valid_rect (deduct_rect a i) ≡ true
    → (i.top ≡ a.top
        → i.bottom ≤ a.bottom
        → Sides (deduct_rect a i) a.left i.bottom a.right a.bottom)
      × (i.bottom ≡ a.bottom → a.top ≤ i.top → Sides (deduct_rect a i) a.left a.top a.right i.top)
unfolding deduct_rect
deduct_vertical a i l r v w = (
  λ t b. record {
    is_left = ground arith;
    is_top = ground arith;
    is_right = ground arith;
    is_bottom = ground arith;
  },
  λ b t. record {
    is_left = ground arith;
    is_top = ground arith;
    is_right = ground arith;
    is_bottom = ground arith;
  },
)

deduct_horizontal :
    (a i : Rect)
    → i.top ≡ a.top
    → i.bottom ≡ a.bottom
    → i.left < i.right
    → is_valid_rect (deduct_rect a i) ≡ true
    → (i.left ≡ a.left → i.right ≤ a.right → Sides (deduct_rect a i) i.right a.top a.right a.bottom)
      × (i.right ≡ a.right → a.left ≤ i.left → Sides (deduct_rect a i) a.left a.top i.left a.bottom)
unfolding deduct_rect
deduct_horizontal a i l r v w = (
  λ t b. record {
    is_left = ground arith;
    is_top = ground arith;
    is_right = ground arith;
    is_bottom = ground arith;
  },
  λ b t. record {
    is_left = ground arith;
    is_top = ground arith;
    is_right = ground arith;
    is_bottom = ground arith;
  },
)

at_low : (m n k : ℕ) → k ≡ greater m n → n ≤ m → k ≡ m
at_low m n k e h = ground arith

at_high : (m n k : ℕ) → k ≡ smaller m n → m ≤ n → k ≡ m
at_high m n k e h = ground arith

below_high : (m n k : ℕ) → k ≡ smaller m n → k ≤ m
below_high m n k e = ground arith

above_low : (m n k : ℕ) → k ≡ greater m n → m ≤ k
above_low m n k e = ground arith

-- A cut on one side that leaves something.
left_over :
    (lo hi p q i j : ℕ)
    → i ≡ greater lo p
    → j ≡ smaller hi q
    → i < j
    → (j < hi → j ≡ greater lo q) × (lo < i → i ≡ smaller hi p)
left_over lo hi p q i j e f v = ((λ g. ground arith), (λ g. ground arith))

proper : (r : Rect) → is_valid_rect r ≡ true → (r.left < r.right) × (r.top < r.bottom)
proper r v = (ground arith, ground arith)

proper-Sides :
    (r : Rect) (l t rt b : ℕ) → Sides r l t rt b → is_valid_rect r ≡ true → (l < rt) × (t < b)
proper-Sides r l t rt b s v =
    let p = proper r v in
    (
      subst (λ x. x < rt) s.is_left (subst (λ x. r.left < x) s.is_right (p.0)),
      subst (λ x. x < b) s.is_top (subst (λ x. r.top < x) s.is_bottom (p.1)),
    )

pub rest_below :
    (a p : Rect)
    → is_valid_rect (rest_of a p) ≡ true
    → p.left ≤ a.left
    → a.right ≤ p.right
    → p.top ≤ a.top
    → Sides (rest_of a p) a.left (greater a.top p.bottom) a.right a.bottom
unfolding rest_of
rest_below a p v f1 f2 e =
    branch (is_valid_rect (get_intersection a p))
      (λ (r : Rect).
        is_valid_rect r ≡ true → Sides r a.left (greater a.top p.bottom) a.right a.bottom)
      _ _
      (λ c v.
        let i = get_intersection a p in
        let m = meet a p c in
        let wide = (proper i c).1 in
        let d =
          (deduct_vertical a i (at_low a.left p.left i.left m.is_left f1)
              (at_high a.right p.right i.right m.is_right f2) wide v).0
            (at_low a.top p.top i.top m.is_top e)
            (below_high a.bottom p.bottom i.bottom m.is_bottom) in
        record {
          is_left = d.is_left;
          is_top =
              d.is_top
              ∙ (left_over a.top a.bottom p.top p.bottom i.top i.bottom m.is_top m.is_bottom wide).0
                  ((proper-Sides _ _ _ _ _ d v).1);
          is_right = d.is_right;
          is_bottom = d.is_bottom;
        })
      (λ c v. record {
        is_left = refl;
        is_top = (miss_vertical a p c v f1 f2).0 e;
        is_right = refl;
        is_bottom = refl;
      })
      v

pub rest_above :
    (a p : Rect)
    → is_valid_rect (rest_of a p) ≡ true
    → p.left ≤ a.left
    → a.right ≤ p.right
    → a.bottom ≤ p.bottom
    → Sides (rest_of a p) a.left a.top a.right (smaller a.bottom p.top)
unfolding rest_of
rest_above a p v f1 f2 e =
    branch (is_valid_rect (get_intersection a p))
      (λ (r : Rect). is_valid_rect r ≡ true → Sides r a.left a.top a.right (smaller a.bottom p.top))
      _ _
      (λ c v.
        let i = get_intersection a p in
        let m = meet a p c in
        let wide = (proper i c).1 in
        let d =
          (deduct_vertical a i (at_low a.left p.left i.left m.is_left f1)
              (at_high a.right p.right i.right m.is_right f2) wide v).1
            (at_high a.bottom p.bottom i.bottom m.is_bottom e)
            (above_low a.top p.top i.top m.is_top) in
        record {
          is_left = d.is_left;
          is_top = d.is_top;
          is_right = d.is_right;
          is_bottom =
              d.is_bottom
              ∙ (left_over a.top a.bottom p.top p.bottom i.top i.bottom m.is_top m.is_bottom wide).1
                  ((proper-Sides _ _ _ _ _ d v).1);
        })
      (λ c v. record {
        is_left = refl;
        is_top = refl;
        is_right = refl;
        is_bottom = (miss_vertical a p c v f1 f2).1 e;
      })
      v

pub rest_right :
    (a p : Rect)
    → is_valid_rect (rest_of a p) ≡ true
    → p.top ≤ a.top
    → a.bottom ≤ p.bottom
    → p.left ≤ a.left
    → Sides (rest_of a p) (greater a.left p.right) a.top a.right a.bottom
unfolding rest_of
rest_right a p v f1 f2 e =
    branch (is_valid_rect (get_intersection a p))
      (λ (r : Rect).
        is_valid_rect r ≡ true → Sides r (greater a.left p.right) a.top a.right a.bottom)
      _ _
      (λ c v.
        let i = get_intersection a p in
        let m = meet a p c in
        let wide = (proper i c).0 in
        let d =
          (deduct_horizontal a i (at_low a.top p.top i.top m.is_top f1)
              (at_high a.bottom p.bottom i.bottom m.is_bottom f2) wide v).0
            (at_low a.left p.left i.left m.is_left e)
            (below_high a.right p.right i.right m.is_right) in
        record {
          is_left =
              d.is_left
              ∙ (left_over a.left a.right p.left p.right i.left i.right m.is_left m.is_right wide).0
                  ((proper-Sides _ _ _ _ _ d v).0);
          is_top = d.is_top;
          is_right = d.is_right;
          is_bottom = d.is_bottom;
        })
      (λ c v. record {
        is_left = (miss_horizontal a p c v f1 f2).0 e;
        is_top = refl;
        is_right = refl;
        is_bottom = refl;
      })
      v

pub rest_left :
    (a p : Rect)
    → is_valid_rect (rest_of a p) ≡ true
    → p.top ≤ a.top
    → a.bottom ≤ p.bottom
    → a.right ≤ p.right
    → Sides (rest_of a p) a.left a.top (smaller a.right p.left) a.bottom
unfolding rest_of
rest_left a p v f1 f2 e =
    branch (is_valid_rect (get_intersection a p))
      (λ (r : Rect).
        is_valid_rect r ≡ true → Sides r a.left a.top (smaller a.right p.left) a.bottom)
      _ _
      (λ c v.
        let i = get_intersection a p in
        let m = meet a p c in
        let wide = (proper i c).0 in
        let d =
          (deduct_horizontal a i (at_low a.top p.top i.top m.is_top f1)
              (at_high a.bottom p.bottom i.bottom m.is_bottom f2) wide v).1
            (at_high a.right p.right i.right m.is_right e)
            (above_low a.left p.left i.left m.is_left) in
        record {
          is_left = d.is_left;
          is_top = d.is_top;
          is_right =
              d.is_right
              ∙ (left_over a.left a.right p.left p.right i.left i.right m.is_left m.is_right wide).1
                  ((proper-Sides _ _ _ _ _ d v).0);
          is_bottom = d.is_bottom;
        })
      (λ c v. record {
        is_left = refl;
        is_top = refl;
        is_right = (miss_horizontal a p c v f1 f2).1 e;
        is_bottom = refl;
      })
      v
