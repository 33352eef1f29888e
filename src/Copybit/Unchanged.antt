-- ===== src/Copybit/Unchanged.antt =====
-- When prepareSwapRect draws only a part of a render buffer again (hwc_copybit.cpp): what the cache
-- of drawn regions holds after any history of frames since it was reset.
use android_device_casio_dtx.Base.{
  ℕ, zero, suc, ◌+◌, ◌%◌, ◌≤◌, ◌≡◌, ◌⊎◌, inl, inr, refl, sym, ap, subst, ◌∙◌, Bool, true, false,
  not, ◌&&◌, Bool-cases, branch, List, [], ◌∷◌, ltb, leb, ◌==◌, if◌then◌else◌, arith, update,
}
use android_device_casio_dtx.Geometry.{Rect, no_rect, is_same_rect}
use android_device_casio_dtx.Copybit.Swap.{
  FbCache, num_render_buffers, reset_fb_cache, insert_and_update_fb_cache,
  get_unchanged_fb_dr_count, check_fb_cache,
}

-- What a frame changes: the damage, and the frames of its updating layers.
abbrev pub Region : Type 0
Region = Rect × Rect

abbrev nothing : Region
nothing = (no_rect, no_rect)

abbrev pub same : Region → Region → Bool
same p q = is_same_rect p.0 q.0 && is_same_rect p.1 q.1

-- A frame after those of the history, the latest first: the cache, and whether the frame is drawn
-- only in part.
abbrev cache_after : List Region → FbCache
cache_after [] = reset_fb_cache
cache_after (p ∷ older) = (check_fb_cache p.0 p.1 (cache_after older)).0

abbrev pub partly_drawn : Region → List Region → Bool
partly_drawn p older = (check_fb_cache p.0 p.1 (cache_after older)).1

-- The frames that were drawn whole.
abbrev drawn_whole : List Region → List Region
drawn_whole [] = []
drawn_whole (p ∷ older) = if partly_drawn p older then drawn_whole older else p ∷ drawn_whole older

-- The frames drawn whole among the last frames that all changed the region.
abbrev pub redraws : Region → List Region → ℕ
redraws p [] = 0
redraws p (q ∷ older) =
    if same q p then (if partly_drawn q older then 0 else 1) + redraws p older else 0

nth : List Region → ℕ → Region
nth [] k = nothing
nth (p ∷ ps) zero = p
nth (p ∷ ps) (suc k) = nth ps k

-- The cache holds the last frames of the list, at the places before its index.
record Holds (c : FbCache) (ps : List Region) : Type 0 where
  bound : c.fb_index ≤ 3
  first :
      (c.fb_dirty_rect ((c.fb_index + 2) % 3), c.fb_display_rect ((c.fb_index + 2) % 3)) ≡ nth ps 0
  second :
      (c.fb_dirty_rect ((c.fb_index + 1) % 3), c.fb_display_rect ((c.fb_index + 1) % 3)) ≡ nth ps 1
  third : (c.fb_dirty_rect (c.fb_index % 3), c.fb_display_rect (c.fb_index % 3)) ≡ nth ps 2

reset-Holds : Holds reset_fb_cache []
unfolding reset_fb_cache nth
reset-Holds = record { bound = omega arith; first = refl; second = refl; third = refl }

module _ (f g : ℕ → Rect) (d v : Rect) (a b : ℕ) where
  update_here : a ≡ b → ◌≡◌ {A = Region} (update f a d b, update g a v b) (d, v)
  update_here e = rw (same_index a b e) refl
    where
      same_index : (a b : ℕ) → a ≡ b → (a == b) ≡ true
      same_index a b e = ground arith

  update_elsewhere : (a == b) ≡ false → ◌≡◌ {A = Region} (update f a d b, update g a v b) (f b, g b)
  update_elsewhere e = rw e refl

insert-Holds :
    (d v : Rect) (c : FbCache) (ps : List Region)
    → Holds c ps
    → Holds (insert_and_update_fb_cache d v c) ((d, v) ∷ ps)
unfolding insert_and_update_fb_cache nth
insert-Holds d v c ps h =
    let i = c.fb_index in
    let f = c.fb_dirty_rect in
    let g = c.fb_display_rect in
    let second : (i % 3 + 1 + 1) % 3 ≡ (i + 2) % 3 = omega arith in
    let third : (i % 3 + 1) % 3 ≡ (i + 1) % 3 = omega arith in
    record {
      bound = omega arith;
      first = update_here f g d v (i % 3) ((i % 3 + 1 + 2) % 3) (omega arith);
      second =
          update_elsewhere f g d v (i % 3) ((i % 3 + 1 + 1) % 3) (ground arith)
          ∙ ap (λ j. (f j, g j)) second
          ∙ h.first;
      third =
          update_elsewhere f g d v (i % 3) ((i % 3 + 1) % 3) (ground arith)
          ∙ ap (λ j. (f j, g j)) third
          ∙ h.second;
    }

-- The test of the cache, by the list that it holds.
abbrev all_three : Region → List Region → Bool
all_three p ps = same (nth ps 0) p && same (nth ps 1) p && same (nth ps 2) p

remainder_cases : (i : ℕ) → (i % 3 ≡ 0) ⊎ ((i % 3 ≡ 1) ⊎ (i % 3 ≡ 2))
remainder_cases i = omega arith

at_places :
    (t : ℕ → Bool) (i a b c : ℕ)
    → (i + 2) % 3 ≡ a
    → (i + 1) % 3 ≡ b
    → i % 3 ≡ c
    → (t ((i + 2) % 3) && t ((i + 1) % 3) && t (i % 3)) ≡ (t a && t b && t c)
at_places t i a b c e f g = rw (e, f, g) refl

rotate_tests :
    (t : ℕ → Bool) (i : ℕ) → (t ((i + 2) % 3) && t ((i + 1) % 3) && t (i % 3)) ≡ (t 0 && t 1 && t 2)
rotate_tests t i = elim (remainder_cases i) [
  | inl r ↦ at_places t i 2 1 0 (omega arith) (omega arith) r ∙ turn_back (t 0) (t 1) (t 2)
  | inr (inl r) ↦ at_places t i 0 2 1 (omega arith) (omega arith) r ∙ turn_second (t 0) (t 1) (t 2)
  | inr (inr r) ↦ at_places t i 1 0 2 (omega arith) (omega arith) r ∙ turn_first (t 0) (t 1) (t 2)
]
  where
    turn_back : (a b c : Bool) → (c && b && a) ≡ (a && b && c)
    turn_back a b c = ground arith

    turn_second : (a b c : Bool) → (a && c && b) ≡ (a && b && c)
    turn_second a b c = ground arith

    turn_first : (a b c : Bool) → (b && a && c) ≡ (a && b && c)
    turn_first a b c = ground arith

count_all :
    (a b c : Bool)
    → ltb ((if a then 1 else 0) + ((if b then 1 else 0) + ((if c then 1 else 0) + 0))) 3
      ≡ not (a && b && c)
count_all a b c = ground arith

unchanged-Holds :
    (p : Region) (c : FbCache) (ps : List Region)
    → Holds c ps
    → ltb (get_unchanged_fb_dr_count p.0 p.1 c) num_render_buffers ≡ not (all_three p ps)
unfolding get_unchanged_fb_dr_count
unchanged-Holds p c ps h =
    let t = λ (j : ℕ). same (c.fb_dirty_rect j, c.fb_display_rect j) p in
    let places : all_three p ps ≡ (t 0 && t 1 && t 2) =
      rw (← h.first, ← h.second, ← h.third) (rotate_tests t c.fb_index) in
    count_all (t 0) (t 1) (t 2) ∙ ap not (sym places)

check_fb_cache-cases :
    (p : Region) (c : FbCache) (ps : List Region)
    → Holds c ps
    → let r = check_fb_cache p.0 p.1 c in
      (r.1 ≡ all_three p ps) × Holds r.0 (if all_three p ps then ps else p ∷ ps)
unfolding check_fb_cache
check_fb_cache-cases p c ps h = elim (Bool-cases (all_three p ps)) [
  | inl t ↦ rw (unchanged-Holds p c ps h, t) (refl, h)
  | inr t ↦ rw (unchanged-Holds p c ps h, t) (refl, insert-Holds p.0 p.1 c ps h)
]

cache_after-Holds : (history : List Region) → Holds (cache_after history) (drawn_whole history)
cache_after-Holds [] = reset-Holds
cache_after-Holds (p ∷ older) =
    let step =
      check_fb_cache-cases p (cache_after older) (drawn_whole older) (cache_after-Holds older) in
    subst
      (λ b.
        Holds (check_fb_cache p.0 p.1 (cache_after older)).0
          (if b then drawn_whole older else p ∷ drawn_whole older))
      (sym step.0) step.1

partly_drawn-all_three :
    (p : Region) (older : List Region) → partly_drawn p older ≡ all_three p (drawn_whole older)
partly_drawn-all_three p older =
    (check_fb_cache-cases p (cache_after older) (drawn_whole older) (cache_after-Holds older)).0

same_self : (p : Region) → same p p ≡ true
unfolding is_same_rect
same_self p = ground arith

same_through : (p q r : Region) → same r q ≡ true → same q p ≡ false → same r p ≡ false
unfolding is_same_rect
same_through p q r h k = ground arith

-- How many frames the list begins with that changed the region.
abbrev lead : Region → List Region → ℕ
lead p [] = 0
lead p (q ∷ ps) = if same q p then 1 + lead p ps else 0

all_three-lead :
    (p : Region) → same nothing p ≡ false → (ps : List Region) → all_three p ps ≡ leb 3 (lead p ps)
unfolding nth
all_three-lead p n [] = rw n refl
all_three-lead p n (a ∷ []) = ground (arith, n)
all_three-lead p n (a ∷ b ∷ []) = ground (arith, n)
all_three-lead p n (a ∷ b ∷ c ∷ ps) = ground arith

no_lead :
    (p q : Region) (ps : List Region) → all_three q ps ≡ true → same q p ≡ false → lead p ps ≡ 0
unfolding nth
no_lead p q [] h k = refl
no_lead p q (r ∷ ps) h k = rw (same_through p q r (ground arith) k) refl

redraws-lead :
    (p : Region) → same nothing p ≡ false → (h : List Region) → redraws p h ≡ lead p (drawn_whole h)
redraws-lead p n [] = refl
redraws-lead p n (q ∷ older) =
    let ih = redraws-lead p n older in
    branch (partly_drawn q older) (λ (l : List Region). redraws p (q ∷ older) ≡ lead p l)
      (drawn_whole older) (q ∷ drawn_whole older)
      (λ part. elim (Bool-cases (same q p)) [
        | inl s ↦ rw (s, part) (omega (arith, ih))
        | inr s ↦
            rw s (
              sym (no_lead p q (drawn_whole older) (sym (partly_drawn-all_three q older) ∙ part) s))
      ])
      (λ whole. rw whole (ap (λ (k : ℕ). if same q p then 1 + k else 0) ih))

-- A frame that changes something is drawn only in part exactly if the frames before it that all
-- changed the same region, without another between, have been drawn whole three times, once for each
-- render buffer.
pub partly_drawn-redraws :
    (p : Region) (history : List Region)
    → same (no_rect, no_rect) p ≡ false
    → partly_drawn p history ≡ leb num_render_buffers (redraws p history)
partly_drawn-redraws p history n =
    partly_drawn-all_three p history
    ∙ all_three-lead p n (drawn_whole history)
    ∙ ap (leb 3) (sym (redraws-lead p n history))

redraws-step :
    (p : Region) (history : List Region)
    → same nothing p ≡ false
    → redraws p (p ∷ history) ≡ (if leb 3 (redraws p history) then 0 else 1) + redraws p history
redraws-step p history n = rw (same_self p, partly_drawn-redraws p history n) refl

-- Whatever came before, the fourth of four frames in a row that change the same region, not an
-- empty one, is drawn only in part.
pub partly_drawn_fourth :
    (p : Region) (history : List Region)
    → same (no_rect, no_rect) p ≡ false
    → partly_drawn p (p ∷ p ∷ p ∷ history) ≡ true
partly_drawn_fourth p history n =
    partly_drawn-redraws p (p ∷ p ∷ p ∷ history) n
    ∙ three_steps (redraws p history) _ _ _ (redraws-step p history n)
        (redraws-step p (p ∷ history) n) (redraws-step p (p ∷ p ∷ history) n)
  where
    three_steps :
        (a b c d : ℕ)
        → b ≡ (if leb 3 a then 0 else 1) + a
        → c ≡ (if leb 3 b then 0 else 1) + b
        → d ≡ (if leb 3 c then 0 else 1) + c
        → leb 3 d ≡ true
    three_steps a b c d h k l = ground arith
