-- ===== src/Composition/Exact.antt =====
-- What fullMDPCompWithPTOR leaves of the layers below the overlaps (hwc_mdpcomp.cpp).
use android_device_casio_dtx.Base.{
  ℕ, ◌+◌, ◌≤◌, ◌≡◌, refl, Bool, true, false, not, ◌&&◌, ◌||◌, leb, ◌==◌, branch, arith,
}
use android_device_casio_dtx.Geometry.{
  Rect, greater, smaller, is_valid_rect, get_intersection, deduct_rect,
}
use android_device_casio_dtx.Geometry.Cover.{covers, covers_invalid, covers-get_intersection}
use android_device_casio_dtx.Geometry.Deduct.{covers-deduct_rect}
use android_device_casio_dtx.Composition.Ptor.{is_peripheral, one_if}
use android_device_casio_dtx.Composition.Rest.{
  rest_of, Sides, rest_below, rest_above, rest_right, rest_left,
}

-- `p` reaches across `a`, from an edge of it.
abbrev pub across : Rect → Rect → Bool
across p a =
    leb p.left a.left && leb a.right p.right && (leb p.top a.top || leb a.bottom p.bottom)
    || leb p.top a.top && leb a.bottom p.bottom && (leb p.left a.left || leb a.right p.right)

abbrev pub inside : Rect → Rect → Bool
inside a v = leb v.left a.left && leb a.right v.right && leb v.top a.top && leb a.bottom v.bottom

pub is_peripheral-across :
    (p v a : Rect) → is_peripheral p v ≡ true → inside a v ≡ true → across p a ≡ true
unfolding is_peripheral
is_peripheral-across p v a h k = ground arith

wider :
    (l l' r r' t t' b b' : Bool)
    → not l || l' ≡ true
    → not r || r' ≡ true
    → not t || t' ≡ true
    → not b || b' ≡ true
    → l && r && (t || b) || t && b && (l || r) ≡ true
    → l' && r' && (t' || b') || t' && b' && (l' || r') ≡ true
wider l l' r r' t t' b b' e f g h k = ground arith

cut_low : (m n k : ℕ) → not (leb m n) || leb (greater m k) (greater n k) ≡ true
cut_low m n k = ground arith

cut_high : (m n k : ℕ) → not (leb m n) || leb (smaller m k) (smaller n k) ≡ true
cut_high m n k = ground arith

uncut : (m n : ℕ) → not (leb m n) || leb m n ≡ true
uncut m n = ground arith

-- What reaches across a rectangle still does, when both are cut at one line.
module _ (q a q_rest a_rest : Rect) (cut : ℕ) (h : across q a ≡ true) where
  across_below :
      Sides q_rest q.left (greater q.top cut) q.right q.bottom
      → Sides a_rest a.left (greater a.top cut) a.right a.bottom
      → across q_rest a_rest ≡ true
  across_below s t =
      rw
        (s.is_left, s.is_top, s.is_right, s.is_bottom, t.is_left, t.is_top, t.is_right, t.is_bottom)
        (wider (leb q.left a.left) _ (leb a.right q.right) _ (leb q.top a.top) _
          (leb a.bottom q.bottom) _ (uncut q.left a.left) (uncut a.right q.right)
          (cut_low q.top a.top cut) (uncut a.bottom q.bottom) h)

  across_above :
      Sides q_rest q.left q.top q.right (smaller q.bottom cut)
      → Sides a_rest a.left a.top a.right (smaller a.bottom cut)
      → across q_rest a_rest ≡ true
  across_above s t =
      rw
        (s.is_left, s.is_top, s.is_right, s.is_bottom, t.is_left, t.is_top, t.is_right, t.is_bottom)
        (wider (leb q.left a.left) _ (leb a.right q.right) _ (leb q.top a.top) _
          (leb a.bottom q.bottom) _ (uncut q.left a.left) (uncut a.right q.right)
          (uncut q.top a.top) (cut_high a.bottom q.bottom cut) h)

  across_right :
      Sides q_rest (greater q.left cut) q.top q.right q.bottom
      → Sides a_rest (greater a.left cut) a.top a.right a.bottom
      → across q_rest a_rest ≡ true
  across_right s t =
      rw
        (s.is_left, s.is_top, s.is_right, s.is_bottom, t.is_left, t.is_top, t.is_right, t.is_bottom)
        (wider (leb q.left a.left) _ (leb a.right q.right) _ (leb q.top a.top) _
          (leb a.bottom q.bottom) _ (cut_low q.left a.left cut) (uncut a.right q.right)
          (uncut q.top a.top) (uncut a.bottom q.bottom) h)

  across_left :
      Sides q_rest q.left q.top (smaller q.right cut) q.bottom
      → Sides a_rest a.left a.top (smaller a.right cut) a.bottom
      → across q_rest a_rest ≡ true
  across_left s t =
      rw
        (s.is_left, s.is_top, s.is_right, s.is_bottom, t.is_left, t.is_top, t.is_right, t.is_bottom)
        (wider (leb q.left a.left) _ (leb a.right q.right) _ (leb q.top a.top) _
          (leb a.bottom q.bottom) _ (uncut q.left a.left) (cut_high a.right q.right cut)
          (uncut q.top a.top) (uncut a.bottom q.bottom) h)

-- Three sides of `p` lie on the screen's.
data Edge (p v : Rect) : Type 0 where
  at_top : p.left ≡ v.left → p.right ≡ v.right → p.top ≡ v.top → Edge p v
  at_bottom : p.left ≡ v.left → p.right ≡ v.right → p.bottom ≡ v.bottom → Edge p v
  at_left : p.top ≡ v.top → p.bottom ≡ v.bottom → p.left ≡ v.left → Edge p v
  at_right : p.top ≡ v.top → p.bottom ≡ v.bottom → p.right ≡ v.right → Edge p v

is_peripheral-Edge : (p v : Rect) → is_peripheral p v ≡ true → Edge p v
unfolding is_peripheral
is_peripheral-Edge p v h =
    edge (p.left == v.left) (p.top == v.top) (p.right == v.right) (p.bottom == v.bottom)
      (λ c. ground arith) (λ c. ground arith) (λ c. ground arith) (λ c. ground arith) h
  where
    edge :
        (l t r b : Bool)
        → (l ≡ true → p.left ≡ v.left)
        → (t ≡ true → p.top ≡ v.top)
        → (r ≡ true → p.right ≡ v.right)
        → (b ≡ true → p.bottom ≡ v.bottom)
        → (one_if l + one_if t + one_if r + one_if b == 3) ≡ true
        → Edge p v
    edge true true true b f g h k e = at_top (f refl) (h refl) (g refl)
    edge true false true true f g h k e = at_bottom (f refl) (h refl) (k refl)
    edge true true false true f g h k e = at_left (g refl) (k refl) (f refl)
    edge false true true true f g h k e = at_right (g refl) (k refl) (h refl)
    edge false true false b f g h k e = absurd (ground arith)
    edge false false r b f g h k e = absurd (ground arith)
    edge false true true false f g h k e = absurd (ground arith)
    edge true false false b f g h k e = absurd (ground arith)
    edge true false true false f g h k e = absurd (ground arith)
    edge true true false false f g h k e = absurd (ground arith)

-- What is left by a cut along an edge of the screen is within the screen, and what remains of a
-- rectangle with three sides on the screen's reaches across what remains of another.
pub across_twice :
    (p q v a : Rect)
    → is_peripheral p v ≡ true
    → inside a v ≡ true
    → inside q v ≡ true
    → across q a ≡ true
    → is_valid_rect (rest_of a p) ≡ true
    → is_valid_rect (rest_of q p) ≡ true
    → across (rest_of q p) (rest_of a p) ≡ true
across_twice p q v a hp ia iq h va vq = elim (is_peripheral-Edge p v hp) [
  | at_top l r t ↦
      across_below q a _ _ p.bottom h
        (rest_below q p vq (ground arith) (ground arith) (ground arith))
        (rest_below a p va (ground arith) (ground arith) (ground arith))
  | at_bottom l r b ↦
      across_above q a _ _ p.top h (rest_above q p vq (ground arith) (ground arith) (ground arith))
        (rest_above a p va (ground arith) (ground arith) (ground arith))
  | at_left t b l ↦
      across_right q a _ _ p.right h
        (rest_right q p vq (ground arith) (ground arith) (ground arith))
        (rest_right a p va (ground arith) (ground arith) (ground arith))
  | at_right t b r ↦
      across_left q a _ _ p.left h (rest_left q p vq (ground arith) (ground arith) (ground arith))
        (rest_left a p va (ground arith) (ground arith) (ground arith))
]

-- The ways of reaching across.
data Way (p a : Rect) : Type 0 where
  way_below : p.left ≤ a.left → a.right ≤ p.right → p.top ≤ a.top → Way p a
  way_above : p.left ≤ a.left → a.right ≤ p.right → a.bottom ≤ p.bottom → Way p a
  way_right : p.top ≤ a.top → a.bottom ≤ p.bottom → p.left ≤ a.left → Way p a
  way_left : p.top ≤ a.top → a.bottom ≤ p.bottom → a.right ≤ p.right → Way p a

across-Way : (p a : Rect) → across p a ≡ true → Way p a
across-Way p a h =
    way (leb p.left a.left) (leb p.top a.top) (leb a.right p.right) (leb a.bottom p.bottom)
      (λ c. ground arith) (λ c. ground arith) (λ c. ground arith) (λ c. ground arith) h
  where
    way :
        (l t r b : Bool)
        → (l ≡ true → p.left ≤ a.left)
        → (t ≡ true → p.top ≤ a.top)
        → (r ≡ true → a.right ≤ p.right)
        → (b ≡ true → a.bottom ≤ p.bottom)
        → l && r && (t || b) || t && b && (l || r) ≡ true
        → Way p a
    way true true true b f g h k e = way_below (f refl) (h refl) (g refl)
    way true false true true f g h k e = way_above (f refl) (h refl) (k refl)
    way true true false true f g h k e = way_right (g refl) (k refl) (f refl)
    way false true true true f g h k e = way_left (g refl) (k refl) (h refl)
    way false false r b f g h k e = absurd (ground arith)
    way false true false b f g h k e = absurd (ground arith)
    way false true true false f g h k e = absurd (ground arith)
    way true false false b f g h k e = absurd (ground arith)
    way true false true false f g h k e = absurd (ground arith)
    way true true false false f g h k e = absurd (ground arith)

-- What is left of a frame does not overlap what was cut from across it.
rest_apart :
    (a p : Rect) (x y : ℕ)
    → Way p a
    → is_valid_rect (rest_of a p) ≡ true
    → covers (rest_of a p) x y && covers p x y ≡ false
rest_apart a p x y (way_below l r t) v =
    let s = rest_below a p v l r t in let e = s.is_top in ground arith
rest_apart a p x y (way_above l r t) v =
    let s = rest_above a p v l r t in let e = s.is_bottom in ground arith
rest_apart a p x y (way_right l r t) v =
    let s = rest_right a p v l r t in let e = s.is_left in ground arith
rest_apart a p x y (way_left l r t) v =
    let s = rest_left a p v l r t in let e = s.is_right in ground arith

greater_comm : (m n : ℕ) → greater m n ≡ greater n m
greater_comm m n = ground arith

smaller_comm : (m n : ℕ) → smaller m n ≡ smaller n m
smaller_comm m n = ground arith

or_comm : (p q : Bool) → p || q ≡ (q || p)
or_comm p q = ground arith

pub get_intersection_comm : (a b : Rect) → get_intersection a b ≡ get_intersection b a
unfolding get_intersection
get_intersection_comm a b =
    let l = greater_comm a.left b.left in
    let t = greater_comm a.top b.top in
    let r = smaller_comm a.right b.right in
    let d = smaller_comm a.bottom b.bottom in
    let o = or_comm (not (is_valid_rect a)) (not (is_valid_rect b)) in rw (l, t, r, d, o) refl

-- When `p` reaches across `a`, exactly the pixels of `p` are cut off.
pub covers-rest_of :
    (a p : Rect) (x y : ℕ)
    → across p a ≡ true
    → covers (rest_of a p) x y ≡ (covers a x y && not (covers p x y))
unfolding rest_of
covers-rest_of a p x y h =
    let i = get_intersection a p in
    let apart = disjoint (is_valid_rect (rest_of a p)) refl in
    let meet = covers-get_intersection a p x y in
    branch (is_valid_rect i)
      (λ (r : Rect).
        covers r x y && covers p x y ≡ false → covers r x y ≡ (covers a x y && not (covers p x y)))
      _ _
      (λ c d.
        let split = covers-deduct_rect a p x y c in
        cut (covers (deduct_rect a i) x y) (covers a x y) (covers p x y) d (split.0) (split.1))
      (λ c d. whole (covers a x y) (covers p x y) d) apart
  where
    disjoint :
        (v : Bool)
        → is_valid_rect (rest_of a p) ≡ v
        → covers (rest_of a p) x y && covers p x y ≡ false
    disjoint true e = rest_apart a p x y (across-Way p a h) e
    disjoint false e = rw (covers_invalid (rest_of a p) x y e) refl

    cut :
        (r a p : Bool) → r && p ≡ false → r || p ≡ (a || p) → r && not a ≡ false → r ≡ (a && not p)
    cut r a p d e f = ground arith

    whole : (a p : Bool) → a && p ≡ false → a ≡ (a && not p)
    whole a p d = ground arith
