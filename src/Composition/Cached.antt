-- ===== src/Composition/Cached.antt =====
-- updateLayerCache and markLayersForCaching (hwc_mdpcomp.cpp): the counters after them.
use android_device_casio_dtx.Base.{
  ℕ, zero, suc, ◌+◌, ◌-◌, ◌≤◌, ◌<◌, ◌≡◌, inl, inr, refl, sym, ap, subst, ◌∙◌, Bool, true, false,
  not, ◌&&◌, ◌||◌, Bool-cases, ◌==◌, ltb, leb, if◌then◌else◌, arith, branch, update, count_index,
  count_index-congr, count_index_none, count_index_within, for_range, for_range_at_zero,
  for_range_keeps, Option, none, some,
}
use android_device_casio_dtx.Geometry.{zero_int}
use android_device_casio_dtx.Composition.Batch.{Best, get_batch}
use android_device_casio_dtx.Composition.Count.{
  kept, IsBest, no_layer, found, returns, get_batch-Returns,
}
use android_device_casio_dtx.Composition.Layers.{is_supported_for_mdp_comp}
use android_device_casio_dtx.Composition.Marks.{
  FrameInfo, Display, count_mdp, cache_step, update_layer_cache, pulled_out, pull_out, batch_counts,
  with_batch, mark_layers_for_caching, frame_of,
}
use android_device_casio_dtx.Composition.Counted.{
  in_fb, IsCounted, IsMdpCounted, Counts, count_mdp-IsCounted, count_mdp-IsMdpCounted,
}

module _ (d : Display) where
  still : ℕ → Bool
  still i = not (d.layers i).updating

  cache_step-drop : (i : ℕ) (f : FrameInfo) → (cache_step d i f).drop ≡ f.drop
  unfolding cache_step
  cache_step-drop i f =
      branch (not (d.layers i).updating) (λ (g : FrameInfo). g.drop ≡ f.drop) _ _ (λ a. refl)
        (λ a. refl)

  cache_step-drop_count : (i : ℕ) (f : FrameInfo) → (cache_step d i f).drop_count ≡ f.drop_count
  unfolding cache_step
  cache_step-drop_count i f = ground arith

  cache_step-layer_count : (i : ℕ) (f : FrameInfo) → (cache_step d i f).layer_count ≡ f.layer_count
  unfolding cache_step
  cache_step-layer_count i f = ground arith

  cache_step-is_fb_composed :
      (i j : ℕ) (f : FrameInfo)
      → (cache_step d i f).is_fb_composed j ≡ (if i == j then still j else f.is_fb_composed j)
  unfolding cache_step still
  cache_step-is_fb_composed i j f = elim (Bool-cases (i == j)) [
    | inl q ↦
        let p : i ≡ j = ground arith in
        subst
          (λ k.
            (cache_step d i f).is_fb_composed k ≡ (if i == k then still k else f.is_fb_composed k))
          p (ground arith)
    | inr q ↦ ground arith
  ]

  cache_step-fb_count :
      (i : ℕ) (f : FrameInfo)
      → f.fb_count ≤ zero_int + 64
      → (cache_step d i f).fb_count ≡ f.fb_count + (if still i && not (f.drop i) then 1 else 0)
  unfolding cache_step still
  cache_step-fb_count i f h = ground arith

  cache_loop :
      (n from : ℕ) (f : FrameInfo)
      → f.fb_count + n ≤ zero_int + 64
      → (for_range n from (cache_step d) f).fb_count
        ≡ f.fb_count + count_index n from (λ i. still i && not (f.drop i))
  unfolding for_range count_index
  cache_loop zero from f h = omega arith
  cache_loop (suc n) from f h =
      let g = cache_step d from f in
      let one = cache_step-fb_count from f (omega (arith, h)) in
      let rest = cache_loop n (from + 1) g (ground (arith, h, one)) in
      let same : count_index n (from + 1) (λ i. still i && not (g.drop i))
          ≡ count_index n (from + 1) (λ i. still i && not (f.drop i)) =
        ap (λ (p : ℕ → Bool). count_index n (from + 1) (λ i. still i && not (p i)))
          (cache_step-drop from f) in
      omega (arith, rest, one, same)

  -- On a frame of the display's layers whose drops are counted, and where no updating layer is dropped.
  pub update_layer_cache-Counts :
      (f : FrameInfo)
      → f.layer_count ≡ d.num_app_layers
      → d.num_app_layers ≤ 32
      → f.drop_count ≡ zero_int + count_index d.num_app_layers 0 f.drop
      → ((i : ℕ) → i < d.num_app_layers → f.drop i ≡ true → (d.layers i).updating ≡ false)
      → let g = update_layer_cache d f in Counts d.num_app_layers f.drop g × IsMdpCounted g
  unfolding update_layer_cache count_mdp still
  update_layer_cache-Counts f k few drops quiet =
      let n = d.num_app_layers in
      let start : FrameInfo = record f { fb_count = zero_int } in
      let g = for_range n 0 (cache_step d) start in
      let layer_same : g.layer_count ≡ n =
        for_range_keeps (λ (t : FrameInfo). t.layer_count) (cache_step d) cache_step-layer_count n 0
          start
        ∙ k in
      let drop_same : g.drop ≡ f.drop =
        for_range_keeps (λ (t : FrameInfo). t.drop) (cache_step d) cache_step-drop n 0 start in
      let drops_same : g.drop_count ≡ f.drop_count =
        for_range_keeps (λ (t : FrameInfo). t.drop_count) (cache_step d) cache_step-drop_count n 0
          start in
      let drop_at : (j : ℕ) → g.drop j ≡ f.drop j = λ j. ap (λ (p : ℕ → Bool). p j) drop_same in
      let mark : (j : ℕ) → j < n → g.is_fb_composed j ≡ still j = λ j b. ground (
        arith,
        for_range_at_zero (λ j (t : FrameInfo). t.is_fb_composed j) (λ j v. still j) (cache_step d)
            cache_step-is_fb_composed n j start,
      ) in
      let total = cache_loop n 0 start (omega (arith, few)) in
      let in_same : count_index n 0 (in_fb g) ≡ count_index n 0 (λ i. still i && not (f.drop i)) =
        count_index-congr n 0 (in_fb g) _
          (λ j a b. ground (arith, mark j (omega (arith, b)), drop_at j)) in
      let c : IsCounted g = record {
        few = omega (arith, layer_same, few);
        fb =
            total
            ∙ ap (λ v. zero_int + v) (sym in_same)
            ∙ ap (λ m. zero_int + count_index m 0 (in_fb g)) (sym layer_same);
        drops =
            drops_same
            ∙ drops
            ∙ ap (λ (p : ℕ → Bool). zero_int + count_index n 0 p) (sym drop_same)
            ∙ ap (λ m. zero_int + count_index m 0 (g.drop)) (sym layer_same);
        held = λ i a b.
            let l : i < n = omega (arith, a, layer_same) in
            ground (arith, mark i l, quiet i l (sym (drop_at i) ∙ b));
      } in
      ((count_mdp-IsCounted g c, layer_same, drop_same), count_mdp-IsMdpCounted g c)

-- The loop that pulls layers out of the framebuffer, where it goes through.
module _ (d : Display) (b : Best) where
  outside : ℕ → Bool
  outside i = ltb (zero_int + i) b.max_start || ltb b.max_end (zero_int + i)

  abbrev pulled : ℕ → FrameInfo → FrameInfo
  pulled i f =
      if pulled_out b f i
      then record f { is_fb_composed = update (f.is_fb_composed) i false }
      else f

  -- What the loop over `n` layers from `from` on leaves of `f`.
  record Pulled (n from : ℕ) (f g : FrameInfo) : Type 0 where
    layer_count : g.layer_count ≡ f.layer_count
    drop : g.drop ≡ f.drop
    drop_count : g.drop_count ≡ f.drop_count
    marks :
        (j : ℕ)
        → g.is_fb_composed j
          ≡ f.is_fb_composed j
            && not (leb from j && ltb j (from + n) && outside j && not (f.drop j))

  at_itself :
      (i : ℕ) (f : FrameInfo)
      → (pulled i f).is_fb_composed i
        ≡ f.is_fb_composed i && not (leb i i && ltb i (i + 1) && outside i && not (f.drop i))
  unfolding pulled_out outside
  at_itself i f = ground arith

  joined_marks :
      (n from j : ℕ) (f g : FrameInfo)
      → g.is_fb_composed j
        ≡ (pulled from f).is_fb_composed j
          && not (
              leb (from + 1) j && ltb j (from + 1 + n) && outside j && not ((pulled from f).drop j))
      → (pulled from f).drop j ≡ f.drop j
      → (pulled from f).is_fb_composed j
        ≡ f.is_fb_composed j && not (leb from j && ltb j (from + 1) && outside j && not (f.drop j))
      → g.is_fb_composed j
        ≡ f.is_fb_composed j
          && not (leb from j && ltb j (from + suc n) && outside j && not (f.drop j))
  joined_marks n from j f g e drops e' = elim (Bool-cases (outside j && not (f.drop j))) [
    | inl q ↦ ground arith
    | inr q ↦ ground arith
  ]

  pulled-Pulled : (i : ℕ) (f : FrameInfo) → Pulled 1 i f (pulled i f)
  unfolding pulled_out outside
  pulled-Pulled i f = record {
    layer_count = ground arith;
    drop =
        branch (pulled_out b f i) (λ (g : FrameInfo). g.drop ≡ f.drop) _ _ (λ a. refl) (λ a. refl);
    drop_count = ground arith;
    marks = λ j. elim (Bool-cases (i == j)) [
      | inl q ↦
          let p : i ≡ j = ground arith in
          subst
            (λ k.
              (pulled i f).is_fb_composed k
              ≡ f.is_fb_composed k && not (leb i k && ltb k (i + 1) && outside k && not (f.drop k)))
            p (at_itself i f)
      | inr q ↦ ground arith
    ];
  }

  pull_out-Pulled :
      (n from : ℕ) (f : FrameInfo)
      → (pull_out d b n from f).0 ≡ true
      → Pulled n from f (pull_out d b n from f).1
  unfolding pull_out outside
  pull_out-Pulled zero from f =
      λ h. record { layer_count = refl; drop = refl; drop_count = refl; marks = λ j. ground arith }
  pull_out-Pulled (suc n) from f =
      branch (pulled_out b f from && not (is_supported_for_mdp_comp d.threshold (d.layers from)))
        (λ (o : Bool × FrameInfo). o.0 ≡ true → Pulled (suc n) from f o.1) (false, f)
        (pull_out d b n (from + 1) (pulled from f)) (λ stop e. absurd (ground arith))
        λ go e.
          let one = pulled-Pulled from f in
          let rest = pull_out-Pulled n (from + 1) (pulled from f) e in
          record {
            layer_count = rest.layer_count ∙ one.layer_count;
            drop = rest.drop ∙ one.drop;
            drop_count = rest.drop_count ∙ one.drop_count;
            marks = λ j.
                joined_marks n from j f (pull_out d b n (from + 1) (pulled from f)).1 (rest.marks j)
                  (ap (λ (p : ℕ → Bool). p j) one.drop) (one.marks j);
          }

-- The batch that the loop leaves in the framebuffer has the layers that getBatch counted.
module _ (d : Display) (b : Best) (f g : FrameInfo) (few : f.layer_count ≤ 32)
    (p : Pulled d b f.layer_count 0 f g) where
  left_in : (j : ℕ) → j < f.layer_count → in_fb g j ≡ in_fb f j && not (outside d b j)
  left_in j h = ground (arith, p.marks j, ap (λ (q : ℕ → Bool). q j) p.drop)

  left_count : IsBest (frame_of d f) b → count_index f.layer_count 0 (in_fb g) ≡ b.max_count
  unfolding outside
  left_count (no_layer first last zero_layers) =
      count_index_none f.layer_count 0 (in_fb g)
        (λ j a c. ground (arith, left_in j (omega (arith, c)), last, few))
      ∙ sym zero_layers
  left_count (found start end first last batch) =
      let n = f.layer_count in
      let inside : count_index (end + 1 - start) start (in_fb g) ≡ b.max_count =
        count_index-congr (end + 1 - start) start (in_fb g) (kept (frame_of d f)) (λ j a c.
          ground (arith, left_in j (omega (arith, c, batch.ordered, batch.listed)), first, last))
        ∙ sym batch.counted in
      count_index_within n start (end + 1) (in_fb g) (omega (arith, batch.ordered))
        (omega (arith, batch.listed))
        (λ j a. ground (
          arith,
          left_in j (omega (arith, a, batch.ordered, batch.listed)),
          first,
          few,
          batch.ordered,
          batch.listed,
        ))
        (λ j a c. ground (arith, left_in j c, last, few))
      ∙ inside

  batch_counts-Counts :
      IsCounted f
      → IsBest (frame_of d f) b
      → Counts f.layer_count f.drop (batch_counts b g) × IsMdpCounted (batch_counts b g)
  unfolding batch_counts count_mdp
  batch_counts-Counts c best =
      let h : FrameInfo = record g { fb_z = b.fb_z_order; fb_count = zero_int + b.max_count } in
      let layers = p.layer_count in
      let v : IsCounted h = record {
        few = omega (arith, layers, few);
        fb =
            ap (λ k. zero_int + k) (sym (left_count best))
            ∙ ap (λ k. zero_int + count_index k 0 (in_fb g)) (sym layers);
        drops =
            p.drop_count
            ∙ c.drops
            ∙ ap (λ (q : ℕ → Bool). zero_int + count_index f.layer_count 0 q) (sym p.drop)
            ∙ ap (λ k. zero_int + count_index k 0 (g.drop)) (sym layers);
        held = λ i a e.
            let e' : f.drop i ≡ true = ap (λ (q : ℕ → Bool). q i) (sym p.drop) ∙ e in
            ground (arith, p.marks i, c.held i (omega (arith, a, layers)) e', e');
      } in
      ((count_mdp-IsCounted h v, layers, p.drop), count_mdp-IsMdpCounted h v)

-- The outcome of a function that marks layers: it returns, and where it answers yes the counters are right.
abbrev pub Marks : ℕ → (ℕ → Bool) → Option (Bool × FrameInfo) → Type 0
Marks n drop none = ⊥
Marks n drop (some (false, g)) = Unit
Marks n drop (some (true, g)) = Counts n drop g × IsMdpCounted g

abbrev finish : Best → Bool × FrameInfo → Option (Bool × FrameInfo)
finish b r = some (r.0, if r.0 then batch_counts b r.1 else r.1)

finish-Marks :
    (n : ℕ) (drop : ℕ → Bool) (b : Best) (r : Bool × FrameInfo)
    → (r.0 ≡ true → Counts n drop (batch_counts b r.1) × IsMdpCounted (batch_counts b r.1))
    → Marks n drop (finish b r)
finish-Marks n drop b (false, g) h = tt
finish-Marks n drop b (true, g) h = h refl

same_drops :
    (n : ℕ) (drop : ℕ → Bool) (f : FrameInfo) (o : Option (Bool × FrameInfo))
    → f.layer_count ≡ n
    → f.drop ≡ drop
    → Marks f.layer_count f.drop o
    → Marks n drop o
same_drops n drop f o k e m = subst (λ p. Marks n p o) e (subst (λ l. Marks l (f.drop) o) k m)

-- On a frame whose counters are right, markLayersForCaching returns, and where it answers yes the
-- counters are right again.
pub mark_layers_for_caching-Marks :
    (d : Display) (n : ℕ) (drop : ℕ → Bool) (f : FrameInfo)
    → Counts n drop f
    → IsMdpCounted f
    → Marks n drop (mark_layers_for_caching d f)
unfolding mark_layers_for_caching with_batch
mark_layers_for_caching-Marks d n drop f (c, k, e) m =
    branch (f.fb_count == zero_int) (Marks n drop) (some (true, f)) _ (λ nothing. ((c, k, e), m))
      λ cached.
        branch (f.mdp_count == zero_int) (Marks n drop) (some (false, f)) _ (λ all. tt)
          λ some_left. elim (get_batch-Returns (frame_of d f)) [
            | returns b r best ↦
                same_drops n drop f (with_batch d f (get_batch (frame_of d f))) k e (
                  subst (λ o. Marks f.layer_count f.drop (with_batch d f o)) (sym r)
                    (finish-Marks f.layer_count f.drop b (pull_out d b f.layer_count 0 f) (λ yes.
                      batch_counts-Counts d b f _ c.few (pull_out-Pulled d b f.layer_count 0 f yes)
                        c best)))
          ]
