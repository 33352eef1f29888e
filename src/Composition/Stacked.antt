-- ===== src/Composition/Stacked.antt =====
-- The indices and the stages of the layers on the display processor.
use android_device_casio_dtx.Base.{
  ℕ, zero, suc, ◌+◌, ◌≤◌, ◌<◌, ◌≡◌, ◌⊎◌, inl, inr, refl, sym, subst, ◌∙◌, Bool, true, false, not,
  ◌&&◌, Bool-cases, List, [], ◌∷◌, leb, if◌then◌else◌, arith, branch, for_range,
}
use android_device_casio_dtx.Geometry.{zero_int}
use android_device_casio_dtx.Composition.Marks.{FrameInfo, Display}
use android_device_casio_dtx.Composition.Stages.{
  Splitting, split_step, past_fb, adjust_for_source_split, Stage, width, stages, all_stages,
}

-- From `lo` on, the stages rise, none overlaps the one before, and none is that of the framebuffer.
abbrev pub Stacked : ℕ → ℕ → List Stage → Type 0
Stacked fb_z lo [] = Unit
Stacked fb_z lo (s ∷ ss) =
    (lo ≤ s.z_order)
    × ((zero_int + s.z_order + width s ≤ fb_z) ⊎ (fb_z < zero_int + s.z_order))
    × Stacked fb_z (s.z_order + width s) ss

past_fb_moves : (fb_z next : ℕ) → next ≤ past_fb fb_z next × (past_fb fb_z next ≤ next + 1)
unfolding past_fb
past_fb_moves fb_z next = (ground arith, ground arith)

-- The loop of adjustForSourceSplit over `n` layers from `i` on.
abbrev split_from : Display → FrameInfo → ℕ → ℕ → Splitting → ℕ
split_from d f n i s = (for_range n i (split_step d f) s).fb_z

-- Once the layers are past the framebuffer, its stage does not move; before, it does not fall.
module _ (d : Display) (f : FrameInfo) where
  passed : (n i : ℕ) (s : Splitting) → s.fb_z < zero_int + s.next → split_from d f n i s ≡ s.fb_z
  unfolding for_range split_step past_fb
  passed zero i s h = refl
  passed (suc n) i s h =
      passed n (i + 1) (split_step d f i s) (ground (arith, h)) ∙ ground (arith, h)

  not_lower : (n i : ℕ) (s : Splitting) → s.fb_z + n ≤ zero_int + 64 → s.fb_z ≤ split_from d f n i s
  unfolding for_range split_step past_fb
  not_lower zero i s h = omega arith
  not_lower (suc n) i s h =
      let rest = not_lower n (i + 1) (split_step d f i s) (ground (arith, h)) in
      ground (arith, rest, h)

  -- A layer that is taken, where `last` is the stage of the framebuffer after the whole loop.
  module _ (i : ℕ) (s : Splitting) (last : ℕ) (small : s.fb_z < zero_int + 64)
      (lower : (split_step d f i s).fb_z ≤ last)
      (settled : ((split_step d f i s).fb_z ≡ last)
        ⊎ (zero_int + (split_step d f i s).next ≤ (split_step d f i s).fb_z))
      (taken : f.is_fb_composed i ≡ false) where
    same_stage : past_fb last s.next ≡ past_fb s.fb_z s.next
    unfolding split_step past_fb
    same_stage = elim settled [
      | inl e ↦ ground (arith, taken, small, lower)
      | inr h ↦ ground (arith, taken, small, lower)
    ]

    abbrev wide : ℕ
    wide = if (d.layers i).yuv_split_needed && true then 2 else 1

    ends : past_fb last s.next + wide ≡ (split_step d f i s).next
    unfolding split_step past_fb
    ends = let e = same_stage in ground (arith, taken, e)

    clear_of_fb :
        (zero_int + past_fb last s.next + wide ≤ last) ⊎ (last < zero_int + past_fb last s.next)
    unfolding split_step past_fb
    clear_of_fb =
        let e = same_stage in
        elim (Bool-cases (leb (zero_int + s.next + 1) s.fb_z)) [
          | inl below ↦ inl (ground (arith, taken, e, lower, small))
          | inr above ↦ inr (elim settled [
            | inl h ↦ ground (arith, taken, e, h)
            | inr h ↦ ground (arith, taken, e, h)
          ])
        ]

  split_step-fb_z :
      (i : ℕ) (s : Splitting) → s.fb_z < zero_int + 64 → (split_step d f i s).fb_z ≤ s.fb_z + 1
  unfolding split_step
  split_step-fb_z i s h = ground (arith, h)

  split_step_off : (i : ℕ) (s : Splitting) → f.is_fb_composed i ≡ true → split_step d f i s ≡ s
  unfolding split_step
  split_step_off i s h = ground (arith, h)

  stages_from :
      (n i : ℕ) (s : Splitting) (last : ℕ)
      → last ≡ split_from d f n i s
      → s.fb_z + n < zero_int + 64
      → Stacked last s.next (stages true d (record f { fb_z = last }) n i s.next)
  unfolding stages for_range
  stages_from zero i s last e h = tt
  stages_from (suc n) i s last e h =
      let t = split_step d f i s in
      let less : t.fb_z + n < zero_int + 64 =
        omega (arith, split_step-fb_z i s (omega (arith, h)), h) in
      let lower : t.fb_z ≤ last = omega (arith, e, not_lower n (i + 1) t (omega (arith, less))) in
      let g : FrameInfo = record f { fb_z = last } in
      branch (not (f.is_fb_composed i)) (Stacked last s.next) _ _
        (λ off.
          let taken : f.is_fb_composed i ≡ false = ground arith in
          let settled : (t.fb_z ≡ last) ⊎ (zero_int + t.next ≤ t.fb_z) =
            elim (Bool-cases (leb (zero_int + t.next) t.fb_z)) [
              | inl yet ↦ inr (ground arith)
              | inr past ↦ inl (sym (passed n (i + 1) t (ground arith)) ∙ sym e)
            ] in
          let small : s.fb_z < zero_int + 64 = omega (arith, h) in
          (
            (past_fb_moves last s.next).0,
            clear_of_fb i s last small lower settled taken,
            subst (λ k. Stacked last k (stages true d g n (i + 1) k))
                (sym (ends i s last small lower settled taken))
                (stages_from n (i + 1) t last e less),
          ))
        λ on.
          subst (λ (r : Splitting). Stacked last r.next (stages true d g n (i + 1) r.next))
            (split_step_off i s (ground arith)) (stages_from n (i + 1) t last e less)

  -- Without split layers.
  stages_plain : (n i next : ℕ) → Stacked f.fb_z next (stages false d f n i next)
  unfolding stages past_fb
  stages_plain zero i next = tt
  stages_plain (suc n) i next =
      branch (not (f.is_fb_composed i)) (Stacked f.fb_z next) _ _
        (λ off. (
          ground arith,
          elim (Bool-cases (leb (zero_int + next + 1) f.fb_z)) [
            | inl below ↦ inl (ground arith)
            | inr above ↦ inr (ground arith)
          ],
          stages_plain n (i + 1) _,
        ))
        (λ on. stages_plain n (i + 1) next)

-- The frame whose stages are given out, as the strategies prepare it.
abbrev pub prepared : Bool → Display → FrameInfo → FrameInfo
prepared yuv_split d f = if yuv_split then adjust_for_source_split d f else f

-- Where a frame of at most 32 layers has at most 32 stages below the framebuffer, the stages of the layers rise, and with the
-- second stages of split layers they do not overlap and leave out that of the framebuffer.
pub all_stages-Stacked :
    (yuv_split : Bool) (d : Display) (f : FrameInfo)
    → f.layer_count ≤ 32
    → f.fb_z < zero_int + 32
    → let g = prepared yuv_split d f in Stacked g.fb_z 0 (all_stages yuv_split d g)
unfolding all_stages adjust_for_source_split split_step
all_stages-Stacked false d f few low = stages_plain d f f.layer_count 0 0
all_stages-Stacked true d f few low =
    let start : Splitting = record { next = 0; fb_z = f.fb_z; mdp_count = f.mdp_count } in
    let all = stages_from d f f.layer_count 0 start in
    branch (leb zero_int f.fb_z)
      (λ (g : FrameInfo). Stacked g.fb_z 0 (stages true d g g.layer_count 0 0)) _ f
      (λ used.
        let s = for_range f.layer_count 0 (split_step d f) start in
        stages_from d (record f { mdp_count = s.mdp_count }) f.layer_count 0 start s.fb_z refl
          (omega (arith, few, low)))
      (λ unused.
        all f.fb_z (sym (passed d f f.layer_count 0 start (ground arith)))
          (omega (arith, few, low)))
