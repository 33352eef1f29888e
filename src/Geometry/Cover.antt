-- ===== src/Geometry/Cover.antt =====
-- What getIntersection, getUnion and deductRect mean for the points of the screen
-- (hwc_utils.cpp).
use android_device_casio_dtx.Base.{
  ℕ, ◌≤◌, ◌≡◌, refl, sym, ap, ◌∙◌, Bool, true, false, ◌&&◌, ◌||◌, not, ltb, leb, if◌then◌else◌,
  arith,
}
use android_device_casio_dtx.Geometry.{
  Rect, no_rect, is_valid_rect, greater, smaller, get_intersection, get_union,
}

-- A coordinate lies in an interval, and a pixel in a rectangle.
abbrev pub span : ℕ → ℕ → ℕ → Bool
span lo hi x = leb lo x && ltb x hi

abbrev pub covers : Rect → ℕ → ℕ → Bool
covers r x y = span r.left r.right x && span r.top r.bottom y

span_cut : (a b c d x : ℕ) → span (greater a b) (smaller c d) x ≡ (span a c x && span b d x)
span_cut a b c d x = ground arith

span_hull :
    (a b c d x : ℕ) → span a c x || span b d x ≡ true → span (smaller a b) (greater c d) x ≡ true
span_hull a b c d x h = ground arith

span_empty : (lo hi x : ℕ) → ltb lo hi ≡ false → span lo hi x ≡ false
span_empty lo hi x h = ground arith

span_split : (lo m hi x : ℕ) → lo ≤ m → m ≤ hi → span lo hi x ≡ (span lo m x || span m hi x)
span_split lo m hi x h k = ground arith

shuffle : (p q r s : Bool) → (p && q) && (r && s) ≡ ((p && r) && (q && s))
shuffle p q r s = ground arith

-- An invalid rectangle covers nothing.
pub covers_invalid : (r : Rect) (x y : ℕ) → is_valid_rect r ≡ false → covers r x y ≡ false
covers_invalid r x y h = ground (arith, span_empty r.left r.right x, span_empty r.top r.bottom y)

nothing : (x y : ℕ) → covers no_rect x y ≡ false
nothing x y = covers_invalid no_rect x y refl

intersect_cases :
    (va vb vr ca cb : Bool) (res : Rect) (x y : ℕ)
    → (va ≡ false → ca ≡ false)
    → (vb ≡ false → cb ≡ false)
    → (vr ≡ false → covers res x y ≡ false)
    → covers res x y ≡ (ca && cb)
    → covers (if not va || not vb then no_rect else if not vr then no_rect else res) x y
      ≡ (ca && cb)
intersect_cases true true true ca cb res x y f g h e = e
intersect_cases true true false ca cb res x y f g h e = nothing x y ∙ sym (h refl) ∙ e
intersect_cases false vb vr ca cb res x y f g h e = nothing x y ∙ sym (rw (f refl) refl)
intersect_cases true false vr ca cb res x y f g h e =
    let z : ca && cb ≡ false = ground (arith, g refl) in nothing x y ∙ sym z

-- The intersection covers exactly the pixels that both cover.
pub covers-get_intersection :
    (a b : Rect) (x y : ℕ) → covers (get_intersection a b) x y ≡ (covers a x y && covers b x y)
unfolding get_intersection
covers-get_intersection a b x y =
    let res : Rect = record {
      left = greater a.left b.left;
      top = greater a.top b.top;
      right = smaller a.right b.right;
      bottom = smaller a.bottom b.bottom;
    } in
    intersect_cases (is_valid_rect a) (is_valid_rect b) (is_valid_rect res) (covers a x y)
      (covers b x y) res x y (covers_invalid a x y) (covers_invalid b x y) (covers_invalid res x y)
      (ap (λ (t : Bool). t && span res.top res.bottom y) (span_cut a.left b.left a.right b.right x)
        ∙ ap (λ (t : Bool). (span a.left a.right x && span b.left b.right x) && t)
            (span_cut a.top b.top a.bottom b.bottom y)
        ∙ shuffle (span a.left a.right x) (span b.left b.right x) (span a.top a.bottom y)
            (span b.top b.bottom y))

union_cases :
    (va vb ca cb : Bool) (a b res : Rect) (x y : ℕ)
    → covers a x y ≡ ca
    → covers b x y ≡ cb
    → (va ≡ false → ca ≡ false)
    → (vb ≡ false → cb ≡ false)
    → ca || cb ≡ true
    → covers res x y ≡ true
    → covers (if not va then b else if not vb then a else res) x y ≡ true
union_cases true true ca cb a b res x y p q f g h e = e
union_cases true false ca cb a b res x y p q f g h e = p ∙ ground (arith, g refl)
union_cases false vb ca cb a b res x y p q f g h e = q ∙ ground (arith, f refl)

hull-covers :
    (a b : Rect) (x y : ℕ)
    → covers a x y || covers b x y ≡ true
    → span (smaller a.left b.left) (greater a.right b.right) x
        && span (smaller a.top b.top) (greater a.bottom b.bottom) y
      ≡ true
hull-covers a b x y h =
    let horizontal = span_hull a.left b.left a.right b.right x (
      either (span a.left a.right x) (span a.top a.bottom y) (span b.left b.right x)
        (span b.top b.bottom y) h) in
    let vertical = span_hull a.top b.top a.bottom b.bottom y (
      other (span a.left a.right x) (span a.top a.bottom y) (span b.left b.right x)
        (span b.top b.bottom y) h) in
    rw (horizontal, vertical) refl
  where
    either : (p q r s : Bool) → p && q || r && s ≡ true → p || r ≡ true
    either p q r s h = ground arith

    other : (p q r s : Bool) → p && q || r && s ≡ true → q || s ≡ true
    other p q r s h = ground arith

-- The union covers what one of the two covers.
pub covers-get_union :
    (a b : Rect) (x y : ℕ) → covers a x y || covers b x y ≡ true → covers (get_union a b) x y ≡ true
unfolding get_union
covers-get_union a b x y h =
    union_cases (is_valid_rect a) (is_valid_rect b) (covers a x y) (covers b x y) a b _ x y refl
      refl (covers_invalid a x y) (covers_invalid b x y) h (hull-covers a b x y h)

-- One rectangle lies in another, if it covers anything.
abbrev pub lies_in : Rect → Rect → Bool
lies_in a b =
    not (is_valid_rect a)
    || leb b.left a.left && leb a.right b.right && leb b.top a.top && leb a.bottom b.bottom

-- No rectangle around the two is smaller than the union.
pub lies_in-get_union :
    (a b c : Rect) → lies_in a c ≡ true → lies_in b c ≡ true → lies_in (get_union a b) c ≡ true
unfolding get_union
lies_in-get_union a b c h k = ground arith
