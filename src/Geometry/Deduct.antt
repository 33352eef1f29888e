-- ===== src/Geometry/Deduct.antt =====
-- deductRect and the pixels of its arguments (hwc_utils.cpp).
use android_device_casio_dtx.Base.{
  ℕ, ◌≤◌, ◌<◌, ◌≡◌, refl, Bool, true, false, ◌&&◌, ◌||◌, not, leb, ◌==◌, if◌then◌else◌, branch,
  arith,
}
use android_device_casio_dtx.Geometry.{
  Rect, no_rect, is_valid_rect, greater, smaller, get_intersection, deduct_rect,
}
use android_device_casio_dtx.Geometry.Cover.{span, covers, covers-get_intersection}

-- The part `b` of `a` was cut off, and `r` is left.
abbrev Splits : Rect → Rect → Rect → ℕ → ℕ → Type 0
Splits a b r x y = (covers r x y || covers b x y) ≡ covers a x y

join_vertical :
    (p : Bool) (t m b y : ℕ)
    → t ≤ m
    → m ≤ b
    → (p && span m b y || p && span t m y ≡ (p && span t b y))
      × (p && span t m y || p && span m b y ≡ (p && span t b y))
join_vertical true t m b y h k = (ground arith, ground arith)
join_vertical false t m b y h k = (refl, refl)

join_horizontal :
    (q : Bool) (l m r x : ℕ)
    → l ≤ m
    → m ≤ r
    → (span m r x && q || span l m x && q ≡ (span l r x && q))
      × (span l m x && q || span m r x && q ≡ (span l r x && q))
join_horizontal true l m r x h k = (ground arith, ground arith)
join_horizontal false l m r x h k = (ground arith, ground arith)

same_covers :
    (b : Rect) (l t r d x y : ℕ)
    → l ≡ b.left
    → t ≡ b.top
    → r ≡ b.right
    → d ≡ b.bottom
    → covers b x y ≡ (span l r x && span t d y)
same_covers b l t r d x y e f g h = cc

-- `b` is a part of `a` that is not empty.
pub record Part (a b : Rect) : Type 0 where
  pub left : a.left ≤ b.left
  pub right : b.right ≤ a.right
  pub top : a.top ≤ b.top
  pub bottom : b.bottom ≤ a.bottom
  pub wide : b.left < b.right
  pub high : b.top < b.bottom

module _ (a b : Rect) (x y : ℕ) (part : Part a b) where
  uncut : Splits a b a x y
  uncut =
      absorb (span a.left a.right x) (span a.top a.bottom y) (span b.left b.right x)
        (span b.top b.bottom y) (span_in a.left b.left b.right a.right x part.left part.right)
        (span_in a.top b.top b.bottom a.bottom y part.top part.bottom)
    where
      span_in : (lo l h hi v : ℕ) → lo ≤ l → h ≤ hi → span l h v && not (span lo hi v) ≡ false
      span_in lo l h hi v p q = ground arith

      absorb :
          (p q r s : Bool) → r && not p ≡ false → s && not q ≡ false → p && q || r && s ≡ (p && q)
      absorb p q r s h k = ground arith

  P : Rect → Type 0
  P r = Splits a b r x y

  vertical :
      a.left ≡ b.left
      → a.right ≡ b.right
      → P (
          if a.top == b.top && leb b.bottom a.bottom
          then record a { top = b.bottom }
          else if a.bottom == b.bottom && leb a.top b.top
          then record a { bottom = b.top }
          else a)
  unfolding P
  vertical e f =
      let p = span a.left a.right x in
      let t = part.top in
      let d = part.bottom in
      let h = part.high in
      branch (a.top == b.top && leb b.bottom a.bottom) P _ _
        (λ c.
          let top : a.top ≡ b.top = ground arith in
          let body = same_covers b a.left a.top a.right b.bottom x y e top f refl in
          rw body (join_vertical p a.top b.bottom a.bottom y (omega arith) (omega arith)).0)
        (λ _.
          branch (a.bottom == b.bottom && leb a.top b.top) P _ _
            (λ c.
              let bottom : a.bottom ≡ b.bottom = ground arith in
              let body = same_covers b a.left b.top a.right a.bottom x y e refl f bottom in
              rw body (join_vertical p a.top b.top a.bottom y (omega arith) (omega arith)).1)
            (λ _. uncut))

  horizontal :
      a.top ≡ b.top
      → a.bottom ≡ b.bottom
      → P (
          if a.left == b.left && leb b.right a.right
          then record a { left = b.right }
          else if a.right == b.right && leb a.left b.left
          then record a { right = b.left }
          else a)
  unfolding P
  horizontal e f =
      let q = span a.top a.bottom y in
      let l = part.left in
      let r = part.right in
      let w = part.wide in
      branch (a.left == b.left && leb b.right a.right) P _ _
        (λ c.
          let left : a.left ≡ b.left = ground arith in
          let body = same_covers b a.left a.top b.right a.bottom x y left e refl f in
          rw body (join_horizontal q a.left b.right a.right x (omega arith) (omega arith)).0)
        (λ _.
          branch (a.right == b.right && leb a.left b.left) P _ _
            (λ c.
              let right : a.right ≡ b.right = ground arith in
              let body = same_covers b b.left a.top a.right a.bottom x y refl e right f in
              rw body (join_horizontal q a.left b.left a.right x (omega arith) (omega arith)).1)
            (λ _. uncut))

  deduct_rect-Splits : Splits a b (deduct_rect a b) x y
  unfolding deduct_rect P
  deduct_rect-Splits =
      branch (a.left == b.left && a.right == b.right) P _ _
        (λ c. vertical (ground arith) (ground arith))
        (λ _.
          branch (a.top == b.top && a.bottom == b.bottom) P _ _
            (λ c. horizontal (ground arith) (ground arith)) (λ _. uncut))

inner : Rect → Rect → Rect
inner a t = record {
  left = greater a.left t.left;
  top = greater a.top t.top;
  right = smaller a.right t.right;
  bottom = smaller a.bottom t.bottom;
}

inner-Part : (a t : Rect) → is_valid_rect (inner a t) ≡ true → Part a (inner a t)
unfolding inner
inner-Part a t v = record {
  left = ground arith;
  right = ground arith;
  top = ground arith;
  bottom = ground arith;
  wide = ground arith;
  high = ground arith;
}

Part-cases :
    (refuses misses : Bool) (a t : Rect)
    → is_valid_rect (if refuses then no_rect else if misses then no_rect else inner a t) ≡ true
    → Part a (if refuses then no_rect else if misses then no_rect else inner a t)
Part-cases true misses a t v = absurd (ground arith)
Part-cases false true a t v = absurd (ground arith)
Part-cases false false a t v = inner-Part a t v

pub get_intersection-Part :
    (a t : Rect) → is_valid_rect (get_intersection a t) ≡ true → Part a (get_intersection a t)
unfolding get_intersection inner
get_intersection-Part a t v =
    Part-cases (not (is_valid_rect a) || not (is_valid_rect t)) (not (is_valid_rect (inner a t))) a
      t v

-- When the part of a frame that a frame on top of it hides is deducted, every pixel is still
-- covered by the rest or by the top frame, and the rest covers no new pixel.
pub covers-deduct_rect :
    (a t : Rect) (x y : ℕ)
    → is_valid_rect (get_intersection a t) ≡ true
    → let rest = deduct_rect a (get_intersection a t) in
      (covers rest x y || covers t x y ≡ (covers a x y || covers t x y))
      × (covers rest x y && not (covers a x y) ≡ false)
covers-deduct_rect a t x y v =
    let i = get_intersection a t in
    let rest = deduct_rect a i in
    let split = deduct_rect-Splits a i x y (get_intersection-Part a t v) in
    let meet = covers-get_intersection a t x y in
    conclude (covers rest x y) (covers i x y) (covers a x y) (covers t x y) split meet
  where
    conclude :
        (r i a t : Bool) → r || i ≡ a → i ≡ (a && t) → (r || t ≡ (a || t)) × (r && not a ≡ false)
    conclude r i a t e f = ground arith
