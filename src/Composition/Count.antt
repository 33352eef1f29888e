-- ===== src/Composition/Count.antt =====
-- The layers that getBatch collects (hwc_mdpcomp.cpp).
use android_device_casio_dtx.Base.{
  ℕ, zero, suc, ◌+◌, ◌-◌, ◌≤◌, ◌<◌, ◌≡◌, ◌⊎◌, inl, inr, refl, sym, ap, ◌∙◌, Bool, true, false, ◌&&◌,
  not, Option, some, ltb, ◌==◌, if◌then◌else◌, arith, count_index, count_index_snoc, branch,
}
use android_device_casio_dtx.Geometry.{zero_int}
use android_device_casio_dtx.Composition.{
  Frame, intersecting_updating_layers, can_push_batch_to_top,
}
use android_device_casio_dtx.Composition.Batch.{
  Scan, Round, stop, go, round, scan, Best, batches, get_batch, fresh, better, no_batch, minus_one,
  join,
}
use android_device_casio_dtx.Composition.Progress.{scan-fresh}

-- The layer is composed in the framebuffer and not dropped.
abbrev pub kept : Frame → ℕ → Bool
kept f i = f.is_fb_composed i && not (f.drop i)

-- How many such layers there are from `lo` to below `hi`.
abbrev pub kept_between : Frame → ℕ → ℕ → ℕ
kept_between f lo hi = count_index (hi - lo) lo (kept f)

-- A batch of `count` layers between `start` and `end`.
pub record IsBatch (f : Frame) (start end count : ℕ) : Type 0 where
  pub ordered : start ≤ end
  pub listed : end < f.layer_count
  pub counted : count ≡ kept_between f start (end + 1)

module _ (f : Frame) (start : ℕ) where
  kept_next :
      (i : ℕ)
      → start ≤ i
      → kept_between f start (i + 1) ≡ kept_between f start i + (if kept f i then 1 else 0)
  kept_next i h =
      let n : i + 1 - start ≡ suc (i - start) = omega arith in
      let j : start + (i - start) ≡ i = omega arith in
      ap (λ m. count_index m start (kept f)) n
      ∙ count_index_snoc (i - start) start (kept f)
      ∙ ap (λ m. kept_between f start i + (if kept f m then 1 else 0)) j

  abbrev Collected : Scan → Type 0
  Collected s = (s.batch_count ≡ 0) ⊎ IsBatch f start s.batch_end s.batch_count

  -- The loop has counted what it has seen.
  record Seen (n : ℕ) (s : Scan) : Type 0 where
    from : start ≤ s.i
    left : s.i + n ≤ f.layer_count
    count : s.batch_count ≡ kept_between f start s.i
    batch : Collected s

  data Went (n : ℕ) : Round → Type 0 where
    stopped : (t : Scan) → Collected t → Went n (stop t)
    gone : (t : Scan) → Seen n t → Went n (go t)

  -- A layer that is not kept is passed over.
  skipped :
      (s : Scan)
      → start ≤ s.i
      → kept f s.i ≡ false
      → kept_between f start (s.i + 1) ≡ kept_between f start s.i
  skipped s h e =
      kept_next s.i h
      ∙ ap (λ (t : Bool). kept_between f start s.i + (if t then 1 else 0)) e
      ∙ omega arith

  -- A layer that joins is one more.
  joined : (n : ℕ) (s : Scan) → Seen (suc n) s → kept f s.i ≡ true → Seen n (join s)
  joined n s v e =
      let lo = v.from in
      let hi = v.left in
      let c = v.count in
      let next : kept_between f start (s.i + 1) ≡ kept_between f start s.i + 1 =
        kept_next s.i lo ∙ ap (λ (t : Bool). kept_between f start s.i + (if t then 1 else 0)) e in
      let more : s.batch_count + 1 ≡ kept_between f start (s.i + 1) =
        ap (λ (m : ℕ). m + 1) c ∙ sym next in
      record {
        from = omega arith;
        left = omega arith;
        count = more;
        batch = inr (record { ordered = lo; listed = omega arith; counted = more });
      }

  passed :
      (n : ℕ) (s t : Scan)
      → Seen (suc n) s
      → kept f s.i ≡ false
      → t.i ≡ s.i + 1
      → t.batch_count ≡ s.batch_count
      → t.batch_end ≡ s.batch_end
      → Seen n t
  passed n s t v e i c b =
      let lo = v.from in
      let hi = v.left in
      record {
        from = omega arith;
        left = omega arith;
        count = c ∙ v.count ∙ sym (skipped s lo e) ∙ ap (kept_between f start) (sym i);
        batch = rw (c, b) v.batch;
      }

  round-Went : (n : ℕ) (s : Scan) → Seen (suc n) s → Went n (round f start s)
  unfolding round
  round-Went n s v =
      branch (not (f.is_fb_composed s.i)) (Went n) _ _
        (λ p.
          branch (s.batch_count == 0) (Went n) _ _ (λ _. stopped _ v.batch)
            (λ _. gone _ (passed n s _ v (ground arith) refl refl refl)))
        (λ p.
          branch (f.drop s.i) (Went n) _ _
            (λ q. gone _ (passed n s _ v (ground arith) refl refl refl))
            (λ q.
              let j = joined n s v (ground arith) in
              branch (s.updating_above == 0) (Went n) _ _ (λ _. gone _ j)
                (λ _.
                  branch (not (intersecting_updating_layers f start (s.i - 1) s.i)) (Went n) _ _
                    (λ _. gone _ j)
                    (λ _.
                      branch (can_push_batch_to_top f start s.i) (Went n) _ _
                        (λ _. gone _ (record {
                          from = j.from;
                          left = j.left;
                          count = j.count;
                          batch = j.batch;
                        }))
                        (λ _. stopped _ v.batch)))))

  after-Went :
      (n : ℕ) (r : Round)
      → ((t : Scan) → Seen n t → Collected (scan n f start t))
      → Went n r
      → Collected (elim r as (λ _. Scan) [ stop t ↦ t | go t ↦ scan n f start t ])
  after-Went n _ h (stopped t k) = k
  after-Went n _ h (gone t m) = h t m

  scan-Collected : (n : ℕ) (s : Scan) → Seen n s → Collected (scan n f start s)
  unfolding scan
  scan-Collected zero s v = v.batch
  scan-Collected (suc n) s v = after-Went n (round f start s) (scan-Collected n) (round-Went n s v)

  fresh-Seen :
      (dropped : ℕ) → start ≤ f.layer_count → Seen (f.layer_count - start) (fresh start dropped)
  unfolding count_index
  fresh-Seen dropped h =
      let none_yet : start - start ≡ 0 = omega arith in
      record {
        from = omega arith;
        left = omega arith;
        count = ap (λ m. count_index m start (kept f)) (sym none_yet);
        batch = inl refl;
      }

-- What getBatch answers: no batch, or the bounds and the number of layers of one.
pub data IsBest (f : Frame) (b : Best) : Type 0 where
  no_layer : b.max_start ≡ minus_one → b.max_end ≡ minus_one → b.max_count ≡ 0 → IsBest f b
  found :
      (start end : ℕ)
      → b.max_start ≡ zero_int + start
      → b.max_end ≡ zero_int + end
      → IsBatch f start end b.max_count
      → IsBest f b

better_best :
    (f : Frame) (start : ℕ) (s : Scan) (b : Best)
    → (s.batch_count ≡ 0) ⊎ IsBatch f start s.batch_end s.batch_count
    → IsBest f b
    → IsBest f (better start s b)
better_best f start s b (inl e) v =
    branch (ltb b.max_count s.batch_count) (IsBest f) _ _ (λ h. absurd (ground arith)) (λ h. v)
better_best f start s b (inr w) v =
    branch (ltb b.max_count s.batch_count) (IsBest f) _ _ (λ h. found start s.batch_end refl refl w)
      (λ h. v)

-- The search returns the best batch of the frame.
pub data Returns (f : Frame) (r : Option Best) : Type 0 where
  returns : (b : Best) → r ≡ some b → IsBest f b → Returns f r

batches-Returns :
    (fuel : ℕ) (f : Frame) (i dropped : ℕ) (b : Best)
    → f.layer_count ≤ i + fuel
    → IsBest f b
    → Returns f (batches fuel f i dropped b)
unfolding batches
batches-Returns zero f i dropped b h v =
    let done : ltb i f.layer_count ≡ false = ground arith in rw done (returns b refl v)
batches-Returns (suc fuel) f i dropped b h v =
    let s = scan (f.layer_count - i) f i (fresh i dropped) in
    branch (ltb i f.layer_count) (Returns f) _ _
      (λ more.
        let above : i < s.i = scan-fresh f i (f.layer_count - i) dropped (ground arith) in
        let batch =
          scan-Collected f i (f.layer_count - i) (fresh i dropped)
            (fresh-Seen f i dropped (ground arith)) in
        batches-Returns fuel f s.i s.dropped (better i s b) (omega arith)
          (better_best f i s b batch v))
      (λ done. returns b refl v)

-- getBatch ends on every frame, with the fuel of one round of its outer loop per layer. It answers
-- that there is no batch, or a range of layers of the list with the exact number of its layers that
-- the framebuffer composes and that are not dropped.
pub get_batch-Returns : (f : Frame) → Returns f (get_batch f)
unfolding get_batch
get_batch-Returns f =
    batches-Returns f.layer_count f 0 0 no_batch (omega arith) (no_layer refl refl refl)
