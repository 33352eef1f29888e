-- ===== src/Composition/Progress.antt =====
-- Where the inner loop of getBatch stands (hwc_mdpcomp.cpp).
use android_device_casio_dtx.Base.{
  ℕ, zero, suc, ◌+◌, ◌-◌, ◌<◌, ◌≡◌, refl, not, Option, none, some, ◌==◌, branch, arith,
}
use android_device_casio_dtx.Composition.{
  Frame, intersecting_updating_layers, can_push_batch_to_top,
}
use android_device_casio_dtx.Composition.Batch.{Scan, Round, stop, go, round, scan, fresh, or_else}

-- The loop has left its first layer, and a restart would be above it.
record Moved (start : ℕ) (s : Scan) : Type 0 where
  later : start < s.i
  restart : start < or_else s.first_z_reverse (start + 1)

-- What a round leaves.
data After (start : ℕ) : Round → Type 0 where
  stopped : (t : Scan) → start < t.i → After start (stop t)
  gone : (t : Scan) → Moved start t → After start (go t)

module _ (f : Frame) (start : ℕ) where
  -- A round that goes on has moved, and one that stops points above the start.
  first_round :
      (s : Scan)
      → s.i ≡ start
      → s.first_z_reverse ≡ none
      → s.updating_above ≡ 0
      → After start (round f start s)
  unfolding round
  first_round s e n z =
      let later : start < s.i + 1 = omega arith in
      let same : start < or_else s.first_z_reverse (start + 1) = rw n (omega arith) in
      branch (not (f.is_fb_composed s.i)) (After start) _ _
        (λ _.
          branch (s.batch_count == 0) (After start) _ _ (λ _. stopped _ later)
            (λ _. gone _ (record { later = later; restart = same })))
        (λ _.
          branch (f.drop s.i) (After start) _ _
            (λ _. gone _ (record { later = later; restart = same }))
            (λ _.
              branch (s.updating_above == 0) (After start) _ _
                (λ _. gone _ (record { later = later; restart = same }))
                (λ busy. absurd (ground arith))))

  restart_above :
      (r : Option ℕ) (d : ℕ) → start < or_else r (start + 1) → start < d → start < or_else r d
  restart_above none d h k = k
  restart_above (some r) d h k = h

  later_round : (s : Scan) → Moved start s → After start (round f start s)
  unfolding round
  later_round s m =
      let above : start < s.i = m.later in
      let again : start < or_else s.first_z_reverse (start + 1) = m.restart in
      let back = restart_above s.first_z_reverse s.i again above in
      let later : start < s.i + 1 = omega arith in
      branch (not (f.is_fb_composed s.i)) (After start) _ _
        (λ _.
          branch (s.batch_count == 0) (After start) _ _ (λ _. stopped _ later)
            (λ _. gone _ (record { later = later; restart = again })))
        (λ _.
          branch (f.drop s.i) (After start) _ _
            (λ _. gone _ (record { later = later; restart = again }))
            (λ _.
              branch (s.updating_above == 0) (After start) _ _
                (λ _. gone _ (record { later = later; restart = again }))
                (λ _.
                  branch (not (intersecting_updating_layers f start (s.i - 1) s.i)) (After start) _
                    _ (λ _. gone _ (record { later = later; restart = again }))
                    (λ _.
                      branch (can_push_batch_to_top f start s.i) (After start) _ _
                        (λ _. gone _ (record { later = later; restart = back }))
                        (λ _. stopped _ back)))))

  After-scan :
      (n : ℕ) (r : Round)
      → ((t : Scan) → Moved start t → start < (scan n f start t).i)
      → After start r
      → start < (elim r as (λ _. Scan) [ stop t ↦ t | go t ↦ scan n f start t ]).i
  After-scan n _ h (stopped t k) = k
  After-scan n _ h (gone t m) = h t m

  -- What is left of the inner loop from a state that has moved.
  scan-Moved : (n : ℕ) (s : Scan) → Moved start s → start < (scan n f start s).i
  unfolding scan
  scan-Moved zero s m = m.later
  scan-Moved (suc n) s m = After-scan n (round f start s) (scan-Moved n) (later_round s m)

  -- The inner loop over at least one layer ends above its start.
  pub scan-fresh : (n dropped : ℕ) → 0 < n → start < (scan n f start (fresh start dropped)).i
  unfolding scan
  scan-fresh zero dropped h = absurd (omega arith)
  scan-fresh (suc n) dropped h =
      After-scan n (round f start (fresh start dropped)) (scan-Moved n)
        (first_round (fresh start dropped) refl refl refl)
