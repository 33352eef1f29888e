-- ===== src/Copybit/Held.antt =====
-- The render buffers that prepareOverlap leaves (hwc_copybit.cpp), and the room in them.
use android_device_casio_dtx.Base.{
  ℕ, zero, suc, ◌+◌, ◌≤◌, ◌<◌, ◌≡◌, ◌⊎◌, inl, inr, refl, subst, ◌∙◌, Bool, true, false, not, ◌&&◌,
  Bool-cases, Option-cases, branch, Option, none, some, ◌==◌, if◌then◌else◌, arith, update, is_some,
  ◌%◌, for_range_at_zero,
}
use android_device_casio_dtx.Geometry.{Rect}
use android_device_casio_dtx.Gralloc.{Platform, rgba_8888}
use android_device_casio_dtx.Gralloc.Size.{get_aligned_width_and_height}
use android_device_casio_dtx.Copybit.Swap.{num_render_buffers}
use android_device_casio_dtx.Copybit.Overlap.{
  RenderBuffers, free_step, free_render_buffers, alloc_from, alloc_render_buffers, place_overlaps,
  prepare_overlap,
}
use android_device_casio_dtx.Copybit.Placed.{OnScreen, IsPlaced, Placed, place_overlaps-Placed}

-- Each buffer that is there has the size.
abbrev pub HasSize : ℕ → ℕ → RenderBuffers → Type 0
HasSize w h s = (i : ℕ) → i < 3 → (s.render_buffer i ≡ none) ⊎ (s.render_buffer i ≡ some (w, h))

abbrev pub AllFree : RenderBuffers → Type 0
AllFree s = (i : ℕ) → i < 3 → s.render_buffer i ≡ none

abbrev pub AllHeld : ℕ → ℕ → RenderBuffers → Type 0
AllHeld w h s = (i : ℕ) → i < 3 → s.render_buffer i ≡ some (w, h)

-- The size that is recorded is the buffers'.
abbrev pub IsSized : RenderBuffers → Type 0
IsSized s = HasSize s.aligned_width s.aligned_height s

free_step-buffer :
    (i j : ℕ) (s : RenderBuffers)
    → (free_step i s).render_buffer j ≡ (if i == j then none else s.render_buffer j)
unfolding free_step
free_step-buffer i j s = elim (Option-cases (s.render_buffer i)) [
  | inl e ↦ rw e (ground (arith, e))
  | inr (b, e) ↦ rw e refl
]

free_render_buffers-AllFree : (s : RenderBuffers) → AllFree (free_render_buffers s)
unfolding free_render_buffers
free_render_buffers-AllFree s i h =
    for_range_at_zero (λ j (t : RenderBuffers). t.render_buffer j) (λ j v. none) free_step
      free_step-buffer 3 i s
    ∙ ground arith

abbrev Allocated : ℕ → ℕ → RenderBuffers × Bool → Type 0
Allocated w h r = ((r.1 ≡ true) × AllHeld w h r.0) ⊎ ((r.1 ≡ false) × AllFree r.0)

one_more :
    {A : Type 0} (f : ℕ → A) (v : A) (i : ℕ)
    → ((j : ℕ) → j < i → f j ≡ v)
    → f i ≡ v
    → (j : ℕ) → j < i + 1
    → f j ≡ v
one_more f v i held here j lt = elim (Bool-cases (i == j)) [
  | inl t ↦ let same : i ≡ j = ground arith in subst (λ k. f k ≡ v) same here
  | inr t ↦ held j (ground arith)
]

-- One buffer filled.
abbrev fill : ℕ → ℕ × ℕ → RenderBuffers → RenderBuffers
fill i b s = record s { render_buffer = update s.render_buffer i (some b) }

update_at : {A : Type 0} (f : ℕ → A) (i : ℕ) (v : A) → update f i v i ≡ v
update_at f i v = rw (same_index i) refl
  where
    same_index : (i : ℕ) → (i == i) ≡ true
    same_index i = ground arith

update_keeps :
    {A : Type 0} (P : A → Type 0) (f : ℕ → A) (i j : ℕ) (v : A) → P v → P (f j) → P (update f i v j)
update_keeps P f i j v p q = branch (i == j) P v (f j) (λ _. p) (λ _. q)

alloc_from-Allocated :
    (has : ℕ → Bool) (w h n i : ℕ) (s : RenderBuffers)
    → i + n ≡ 3
    → HasSize w h s
    → ((j : ℕ) → j < i → s.render_buffer j ≡ some (w, h))
    → Allocated w h (alloc_from has w h n i s)
unfolding alloc_from
alloc_from-Allocated has w h zero i s e sized held = inl (refl, λ j lt. held j (omega arith))
alloc_from-Allocated has w h (suc n) i s e sized held =
    let filled = fill i (w, h) s in
    let OneSize : Option (ℕ × ℕ) → Type 0 = λ b. (b ≡ none) ⊎ (b ≡ some (w, h)) in
    branch (is_some (s.render_buffer i)) (Allocated w h) _ _
      (λ there. alloc_from-Allocated has w h n (i + 1) s (omega arith) sized (
        one_more s.render_buffer (some (w, h)) i held
          (present (s.render_buffer i) there (sized i (omega arith)))))
      (λ _.
        branch (has i) (Allocated w h) _ _
          (λ _.
            alloc_from-Allocated has w h n (i + 1) filled (omega arith)
              (λ j lt.
                update_keeps OneSize s.render_buffer i j (some (w, h)) (inr refl) (sized j lt))
              (one_more filled.render_buffer (some (w, h)) i
                (λ j lt.
                  update_keeps (λ b. b ≡ some (w, h)) s.render_buffer i j (some (w, h)) refl
                    (held j lt))
                (update_at s.render_buffer i (some (w, h)))))
          (λ _. inr (refl, free_render_buffers-AllFree s)))
  where
    present :
        (b : Option (ℕ × ℕ)) → is_some b ≡ true → (b ≡ none) ⊎ (b ≡ some (w, h)) → b ≡ some (w, h)
    present b t (inl e) = absurd (ground (arith, t, e))
    present b t (inr e) = e

-- What the vendor's library computes for a buffer is not below what was asked for.
abbrev pub Grows : Platform → Type 0
Grows p =
    (w h : ℕ)
    → w ≤ 16448
    → h ≤ 16448
    → let r = get_aligned_width_and_height p w h rgba_8888 false in (w ≤ r.0) × (h ≤ r.1)

-- Three buffers, and in each of them a place for every overlap.
pub record HasRoom (overlaps : ℕ → Rect) (count : ℕ) (s : RenderBuffers) : Type 0 where
  pub held : AllHeld s.aligned_width s.aligned_height s
  pub places :
      (k : ℕ)
      → k < count
      → IsPlaced
          (overlaps k)
          s.aligned_width
          s.aligned_height
          ((place_overlaps overlaps count).display_frame k)
  pub apart :
      (j k : ℕ)
      → j < k
      → k < count
      → ((place_overlaps overlaps count).display_frame j).bottom
        ≤ ((place_overlaps overlaps count).display_frame k).top

wider-IsPlaced :
    (r f : Rect) (w h w' h' : ℕ) → w ≤ w' → h ≤ h' → IsPlaced r w h f → IsPlaced r w' h' f
wider-IsPlaced r f w h w' h' a b p = record {
  left = p.left;
  right = p.right;
  top = p.top;
  bottom = p.bottom;
  wide = omega (arith, p.wide);
  high = omega (arith, p.high);
}

-- The buffers' size is again the one that is recorded, and after a success they have room.
abbrev pub Prepared : (ℕ → Rect) → ℕ → RenderBuffers × Bool → Type 0
Prepared overlaps count r = IsSized r.0 × (r.1 ≡ true → HasRoom overlaps count r.0)

freed_size :
    (w h : ℕ) (s : RenderBuffers)
    → IsSized s
    → HasSize w h
        (if s.aligned_width == w && s.aligned_height == h then s else free_render_buffers s)
freed_size w h s sized =
    branch (s.aligned_width == w && s.aligned_height == h) (HasSize w h) s (free_render_buffers s)
      (λ fits.
        let a : s.aligned_width ≡ w = ground arith in
        let b : s.aligned_height ≡ h = ground arith in
        subst (λ w. HasSize w h s) a (subst (λ h. HasSize s.aligned_width h s) b sized))
      (λ _ i lt. inl (free_render_buffers-AllFree s i lt))

-- The end of prepareOverlap, for what the allocation answers.
abbrev taken : ℕ → ℕ → RenderBuffers × Bool → RenderBuffers × Bool
taken w h r = if not r.1 then (r.0, false) else (
  record r.0 {
    aligned_width = w;
    aligned_height = h;
    cur_render_buffer_index = (r.0.cur_render_buffer_index + 1) % num_render_buffers;
  },
  true,
)

module _ (overlaps : ℕ → Rect) (count w h : ℕ) where
  taken-Prepared :
      (r : RenderBuffers × Bool)
      → Allocated w h r
      → Placed overlaps count (place_overlaps overlaps count)
      → (place_overlaps overlaps count).final_w ≤ w
      → (place_overlaps overlaps count).final_h ≤ h
      → Prepared overlaps count (taken w h r)
  taken-Prepared (t, true) (inl (e, all)) placed a b = (
    λ i lt. inr (all i lt),
    λ _. record {
      held = all;
      places = λ k lt. wider-IsPlaced (overlaps k) _ _ _ w h a b (placed.places k lt);
      apart = placed.apart;
    },
  )
  taken-Prepared (t, true) (inr (e, all)) placed a b = absurd (ground (arith, e))
  taken-Prepared (t, false) (inl (e, all)) placed a b = absurd (ground (arith, e))
  taken-Prepared (t, false) (inr (e, all)) placed a b =
      (λ i lt. inl (all i lt), λ e. absurd (ground (arith, e)))

-- Overlaps on a screen, at most two, and buffers that all have the recorded size: prepareOverlap
-- keeps that, and where it succeeds there are three buffers, each with a place for every overlap, of
-- its size, one below another. The vendor's library does not answer a size below what it is asked.
pub prepare_overlap-Prepared :
    (p : Platform) (has : ℕ → Bool) (usable : Bool) (overlaps : ℕ → Rect) (count : ℕ)
    (s : RenderBuffers)
    → Grows p
    → count ≤ 2
    → ((i : ℕ) → i < count → OnScreen (overlaps i))
    → IsSized s
    → Prepared overlaps count (prepare_overlap p has usable overlaps count s)
unfolding prepare_overlap alloc_render_buffers
prepare_overlap-Prepared p has usable overlaps count s grows few on sized =
    let placed = place_overlaps-Placed overlaps count few on in
    let found = place_overlaps overlaps count in
    let size = get_aligned_width_and_height p found.final_w found.final_h rgba_8888 false in
    let room =
      grows found.final_w found.final_h (omega (arith, placed.narrow))
        (omega (arith, placed.bounded)) in
    branch (not usable) (Prepared overlaps count) (s, false) _
      (λ _. (sized, λ e. absurd (ground (arith, e))))
      (λ _.
        taken-Prepared overlaps count size.0 size.1 _
          (alloc_from-Allocated has size.0 size.1 3 0 _ refl (freed_size size.0 size.1 s sized)
            (λ j lt. absurd (omega arith)))
          placed room.0 room.1)
