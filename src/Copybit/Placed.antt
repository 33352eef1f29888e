-- ===== src/Copybit/Placed.antt =====
-- Where prepareOverlap (hwc_copybit.cpp) puts the overlaps.
use android_device_casio_dtx.Base.{
  ℕ, suc, ◌+◌, ◌*◌, ◌≤◌, ◌<◌, ◌≡◌, inl, inr, refl, sym, subst, ◌∙◌, true, false, Bool-cases, ltb,
  ◌==◌, if◌then◌else◌, arith, add32, sub32, for_range_indexed,
}
use android_device_casio_dtx.Geometry.{Rect, zero_int, no_rect}
use android_device_casio_dtx.Gralloc.{align_up}
use android_device_casio_dtx.Gralloc.Room.{align_32}
use android_device_casio_dtx.Copybit.Overlap.{
  Placing, width, height, place_step, nothing_placed, place_overlaps,
}

-- A frame of a screen.
abbrev pub OnScreen : Rect → Type 0
OnScreen r = (width r ≤ 8192) × (height r ≤ 8192)

-- The place of an overlap has its size, and lies within the sizes that are found.
pub record IsPlaced (overlap : Rect) (final_w final_h : ℕ) (place : Rect) : Type 0 where
  pub left : place.left ≡ zero_int
  pub right : place.right ≡ zero_int + width overlap
  pub top : zero_int ≤ place.top
  pub bottom : place.bottom ≡ place.top + height overlap
  pub wide : width overlap ≤ final_w
  pub high : place.bottom ≤ zero_int + final_h

-- One more overlap, which begins where the last ends.
record Step (w h fw fh fw' fh' : ℕ) (place : Rect) : Type 0 where
  starts : place.left ≡ zero_int
  across : place.right ≡ zero_int + w
  after : place.top ≡ zero_int + fh
  down : place.bottom ≡ zero_int + fh + h
  wider : fw ≤ fw'
  room : w ≤ fw'
  narrow : fw' ≤ 8224
  higher : fh + h ≤ fh'
  bounded : fh' ≤ fh + 8224

one_below :
    (w h aw ah fw fh : ℕ)
    → w ≤ 8192
    → h ≤ 8192
    → (w ≤ aw) × (aw < w + 32)
    → (h ≤ ah) × (ah < h + 32)
    → fh ≤ 8224
    → fw ≤ 8224
    → let high = add32 fh ah in
      let top = if ltb ah high then add32 zero_int (sub32 high ah) else zero_int in
      Step w h fw fh
        (if ltb fw aw then aw else fw)
        high
        (record { left = zero_int; top = top; right = add32 zero_int w; bottom = add32 top h })
one_below w h aw ah fw fh a b p q k l = ground arith

same_index : (i : ℕ) → (i == i) ≡ true
same_index i = ground arith

place_step-Step :
    (overlaps : ℕ → Rect) (i : ℕ) (s : Placing)
    → OnScreen (overlaps i)
    → s.final_h ≤ 8224
    → s.final_w ≤ 8224
    → s.display_frame i ≡ no_rect
    → let t = place_step overlaps i s in
      Step
        (width (overlaps i))
        (height (overlaps i))
        s.final_w
        s.final_h
        t.final_w
        t.final_h
        (t.display_frame i)
unfolding place_step
place_step-Step overlaps i s o k l e =
    let w = width (overlaps i) in
    let h = height (overlaps i) in
    rw (same_index i, e)
      (one_below w h (align_up w 32) (align_up h 32) s.final_w s.final_h o.0 o.1
        (align_32 w (omega arith)) (align_32 h (omega arith)) k l)

-- After `i` rounds: the overlaps before `i` have their places, one below another.
pub record Placed (overlaps : ℕ → Rect) (i : ℕ) (s : Placing) : Type 0 where
  pub bounded : s.final_h ≤ i * 8224
  pub narrow : s.final_w ≤ 8224
  pub places : (k : ℕ) → k < i → IsPlaced (overlaps k) s.final_w s.final_h (s.display_frame k)
  pub apart : (j k : ℕ) → j < k → k < i → (s.display_frame j).bottom ≤ (s.display_frame k).top
  pub rest : (k : ℕ) → i ≤ k → s.display_frame k ≡ no_rect

place_step-other :
    (overlaps : ℕ → Rect) (i k : ℕ) (s : Placing)
    → (i == k) ≡ false
    → (place_step overlaps i s).display_frame k ≡ s.display_frame k
unfolding place_step
place_step-other overlaps i k s e = rw e refl

place_step-Placed :
    (overlaps : ℕ → Rect) (i : ℕ) (s : Placing)
    → i < 2
    → OnScreen (overlaps i)
    → Placed overlaps i s
    → Placed overlaps (suc i) (place_step overlaps i s)
place_step-Placed overlaps i s lt o p =
    let t = place_step overlaps i s in
    let st =
      place_step-Step overlaps i s o (omega (arith, p.bounded)) p.narrow (p.rest i (omega arith)) in
    record {
      bounded = omega (arith, p.bounded, st.bounded);
      narrow = st.narrow;
      places = λ k h. elim (Bool-cases (i == k)) [
        | inl e ↦
            let same : i ≡ k = ground arith in
            subst (λ k. IsPlaced (overlaps k) t.final_w t.final_h (t.display_frame k)) same
              (record {
                left = st.starts;
                right = st.across;
                top = omega (arith, st.after);
                bottom = omega (arith, st.after, st.down);
                wide = st.room;
                high = omega (arith, st.down, st.higher);
              })
        | inr e ↦
            let old = p.places k (ground arith) in
            subst (IsPlaced (overlaps k) t.final_w t.final_h)
              (sym (place_step-other overlaps i k s e))
              (record {
                left = old.left;
                right = old.right;
                top = old.top;
                bottom = old.bottom;
                wide = omega (arith, old.wide, st.wider);
                high = omega (arith, old.high, st.higher);
              })
      ];
      apart = λ j k h h'.
          let kept = place_step-other overlaps i j s (ground arith) in
          elim (Bool-cases (i == k)) [
            | inl e ↦
                let same : i ≡ k = ground arith in
                subst (λ k. (t.display_frame j).bottom ≤ (t.display_frame k).top) same
                  (subst (λ (r : Rect). r.bottom ≤ (t.display_frame i).top) (sym kept)
                    (omega (arith, (p.places j (omega arith)).high, st.after)))
            | inr e ↦
                subst (λ (r : Rect). r.bottom ≤ (t.display_frame k).top) (sym kept)
                  (subst (λ (r : Rect). (s.display_frame j).bottom ≤ r.top)
                    (sym (place_step-other overlaps i k s e)) (p.apart j k h (ground arith)))
          ];
      rest = λ k h. place_step-other overlaps i k s (ground arith) ∙ p.rest k (omega arith);
    }

-- At most two overlaps on a screen have places one below another, each with the overlap's size and
-- within the size that is found for the buffer.
pub place_overlaps-Placed :
    (overlaps : ℕ → Rect) (count : ℕ)
    → count ≤ 2
    → ((i : ℕ) → i < count → OnScreen (overlaps i))
    → Placed overlaps count (place_overlaps overlaps count)
unfolding place_overlaps
place_overlaps-Placed overlaps count few on =
    for_range_indexed (Placed overlaps) (place_step overlaps) count 0 count nothing_placed
      (omega arith) (λ i s h p. place_step-Placed overlaps i s (omega arith) (on i h) p)
      (record {
        bounded = omega arith;
        narrow = omega arith;
        places = λ k h. absurd (omega arith);
        apart = λ j k h h'. absurd (omega arith);
        rest = λ k h. refl;
      })
