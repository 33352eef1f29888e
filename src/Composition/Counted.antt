-- ===== src/Composition/Counted.antt =====
-- When the counters of a `FrameInfo` are right, and what keeps them so.
use android_device_casio_dtx.Base.{
  ℕ, ◌+◌, ◌≤◌, ◌<◌, ◌≡◌, inl, inr, ap, subst, ◌∙◌, Bool, true, false, not, ◌&&◌, ◌||◌, Bool-cases,
  ◌==◌, ltb, if◌then◌else◌, arith, branch, update, count_index, count_index_more, count_index_three,
  count_index_le, for_range_invariant,
}
use android_device_casio_dtx.Geometry.{zero_int}
use android_device_casio_dtx.Composition.Layers.{is_yuv_doable, is_secure_rgb_doable}
use android_device_casio_dtx.Composition.Marks.{
  FrameInfo, Display, count_mdp, to_fb, to_mdp, yuv_step, update_yuv, secure_rgb_step,
  update_secure_rgb,
}

-- Layer `i` is drawn in the framebuffer.
abbrev pub in_fb : FrameInfo → ℕ → Bool
in_fb f i = f.is_fb_composed i && not (f.drop i)

abbrev pub on_mdp : FrameInfo → ℕ → Bool
on_mdp f i = not (f.is_fb_composed i)

-- The counters of the framebuffer and of the dropped layers are right, and the display processor has no dropped layer.
pub record IsCounted (f : FrameInfo) : Type 0 where
  pub few : f.layer_count ≤ 32
  pub fb : f.fb_count ≡ zero_int + count_index f.layer_count 0 (in_fb f)
  pub drops : f.drop_count ≡ zero_int + count_index f.layer_count 0 f.drop
  pub held : (i : ℕ) → i < f.layer_count → f.drop i ≡ true → f.is_fb_composed i ≡ true

-- The counter of the display processor is right.
abbrev pub IsMdpCounted : FrameInfo → Type 0
IsMdpCounted f = f.mdp_count ≡ zero_int + count_index f.layer_count 0 (on_mdp f)

pub count_mdp-IsMdpCounted : (f : FrameInfo) → IsCounted f → IsMdpCounted (count_mdp f)
unfolding count_mdp
count_mdp-IsMdpCounted f c =
    let all =
      count_index_three f.layer_count 0 (in_fb f) (f.drop) (on_mdp f)
        (λ j a b. ground (arith, c.held j (omega (arith, b)))) in
    omega (arith, c.few, c.fb, c.drops, all)

pub count_mdp-IsCounted : (f : FrameInfo) → IsCounted f → IsCounted (count_mdp f)
unfolding count_mdp
count_mdp-IsCounted f c = record { few = c.few; fb = c.fb; drops = c.drops; held = c.held }

pub to_fb-IsCounted :
    (i : ℕ) (f : FrameInfo)
    → i < f.layer_count
    → f.drop i ≡ false
    → IsCounted f
    → IsCounted (to_fb i f)
unfolding to_fb
to_fb-IsCounted i f h e c =
    branch (not (f.is_fb_composed i)) IsCounted _ f
      (λ off.
        let more =
          count_index_more f.layer_count 0 i (in_fb f)
            (λ j. update (f.is_fb_composed) i true j && not (f.drop j)) (λ j p. ground (arith, p))
            (omega arith) (omega (arith, h)) (ground arith) (ground arith) in
        let le = count_index_le f.layer_count 0 (in_fb f) in
        record {
          few = c.few;
          fb = omega (arith, c.fb, c.few, more, le);
          drops = c.drops;
          held = λ j a b. ground (arith, c.held j a b);
        })
      (λ on. c)

pub to_mdp-IsCounted :
    (i : ℕ) (f : FrameInfo)
    → i < f.layer_count
    → f.drop i ≡ false
    → IsCounted f
    → IsCounted (to_mdp i f)
unfolding to_mdp
to_mdp-IsCounted i f h e c =
    branch (f.is_fb_composed i) IsCounted _ f
      (λ on.
        let less =
          count_index_more f.layer_count 0 i
            (λ j. update (f.is_fb_composed) i false j && not (f.drop j)) (in_fb f)
            (λ j p. ground (arith, p)) (omega arith) (omega (arith, h)) (ground arith)
            (ground arith) in
        let le = count_index_le f.layer_count 0 (in_fb f) in
        record {
          few = c.few;
          fb = omega (arith, c.fb, c.few, less, le);
          drops = c.drops;
          held = λ j a b. elim (Bool-cases (i == j)) [
            | inl q ↦
                let p : i ≡ j = ground arith in
                let here : f.drop j ≡ false = subst (λ k. f.drop k ≡ false) p e in
                absurd (ground (arith, b, here))
            | inr q ↦ ground (arith, c.held j a b)
          ];
        })
      (λ off. c)

-- A counted frame of `n` layers with the drops `drop`.
abbrev pub Counts : ℕ → (ℕ → Bool) → FrameInfo → Type 0
Counts n drop f = IsCounted f × (f.layer_count ≡ n) × (f.drop ≡ drop)

to_fb-Counts :
    (n : ℕ) (drop : ℕ → Bool) (i : ℕ) (f : FrameInfo)
    → i < n
    → drop i ≡ false
    → Counts n drop f
    → Counts n drop (to_fb i f)
unfolding to_fb
to_fb-Counts n drop i f h e (c, k, d) = (
  to_fb-IsCounted i f (omega (arith, h, k)) (ap (λ (p : ℕ → Bool). p i) d ∙ e) c,
  ground (arith, k),
  branch (not (f.is_fb_composed i)) (λ (g : FrameInfo). g.drop ≡ drop) _ f (λ a. d) (λ a. d),
)

to_mdp-Counts :
    (n : ℕ) (drop : ℕ → Bool) (i : ℕ) (f : FrameInfo)
    → i < n
    → drop i ≡ false
    → Counts n drop f
    → Counts n drop (to_mdp i f)
unfolding to_mdp
to_mdp-Counts n drop i f h e (c, k, d) = (
  to_mdp-IsCounted i f (omega (arith, h, k)) (ap (λ (p : ℕ → Bool). p i) d ∙ e) c,
  ground (arith, k),
  branch (f.is_fb_composed i) (λ (g : FrameInfo). g.drop ≡ drop) _ f (λ a. d) (λ a. d),
)

module _ (d : Display) (n : ℕ) (drop : ℕ → Bool) where
  yuv_step-Counts :
      (secure_only : Bool) (index : ℕ) (f : FrameInfo)
      → d.yuv_indices index < n
      → Counts n drop f
      → Counts n drop (yuv_step d drop secure_only index f)
  unfolding yuv_step
  yuv_step-Counts secure_only index f h c =
      let i = d.yuv_indices index in
      let P = Counts n drop in
      branch (drop i) P f _ (λ dropped. c)
        λ here.
          branch (not (is_yuv_doable d.can_use_rotator (d.layers i))) P (to_fb i f) _
            (λ no. to_fb-Counts n drop i f h here c)
            λ yes.
              branch (not secure_only || (d.layers i).secure_buffer) P (to_mdp i f) f
                (λ go. to_mdp-Counts n drop i f h here c) (λ stay. c)

  secure_rgb_step-Counts :
      (index : ℕ) (f : FrameInfo)
      → d.secure_rgb_indices index < n
      → drop (d.secure_rgb_indices index) ≡ false
      → Counts n drop f
      → Counts n drop (secure_rgb_step d index f)
  unfolding secure_rgb_step
  secure_rgb_step-Counts index f h here c =
      let i = d.secure_rgb_indices index in
      branch (not (is_secure_rgb_doable d.threshold (d.layers i))) (Counts n drop) (to_fb i f)
        (to_mdp i f) (λ no. to_fb-Counts n drop i f h here c)
        (λ yes. to_mdp-Counts n drop i f h here c)

  count_mdp-Counts :
      (f : FrameInfo) → Counts n drop f → Counts n drop (count_mdp f) × IsMdpCounted (count_mdp f)
  unfolding count_mdp
  count_mdp-Counts f (c, k, e) = ((count_mdp-IsCounted f c, k, e), count_mdp-IsMdpCounted f c)

  pub update_yuv-Counts :
      (secure_only : Bool) (f : FrameInfo)
      → ((index : ℕ) → index < d.yuv_count → d.yuv_indices index < n)
      → Counts n drop f
      → let g = update_yuv d drop secure_only f in Counts n drop g × IsMdpCounted g
  unfolding update_yuv
  update_yuv-Counts secure_only f h c =
      let m = if ltb d.vg_pipes d.yuv_count then d.vg_pipes else d.yuv_count in
      count_mdp-Counts _ (
        for_range_invariant (Counts n drop) (yuv_step d drop secure_only) m 0 f
          (λ i t a b v. yuv_step-Counts secure_only i t (h i (ground (arith, b))) v) c)

  pub update_secure_rgb-Counts :
      (f : FrameInfo)
      → ((index : ℕ) → index < d.secure_rgb_count → d.secure_rgb_indices index < n)
      → ((index : ℕ) → index < d.secure_rgb_count → drop (d.secure_rgb_indices index) ≡ false)
      → Counts n drop f
      → let g = update_secure_rgb d f in Counts n drop g × IsMdpCounted g
  unfolding update_secure_rgb
  update_secure_rgb-Counts f h e c = count_mdp-Counts _ (
      for_range_invariant (Counts n drop) (secure_rgb_step d) d.secure_rgb_count 0 f
        (λ i t a b v.
          secure_rgb_step-Counts i t (h i (omega (arith, b))) (e i (omega (arith, b))) v)
        c)
