-- ===== src/Overlay/Pick.antt =====
-- What nextPipe and getPipe hand out (overlay.cpp).
use android_device_casio_dtx.Base.{
  ℕ, ◌≤◌, ◌<◌, ◌≡◌, inl, inr, refl, Bool, true, false, not, arith, ◌==◌, Bool-cases, if◌then◌else◌,
  find_index-Found, NonePass, FirstPass, Found,
}
use android_device_casio_dtx.Ctrl.{PipeType, rgb, vg, dma, any}
use android_device_casio_dtx.Overlay.State.{Overlay, PipeSpecs, ov_invalid, same_type}
use android_device_casio_dtx.Overlay.Alloc.{
  Target, can_take, take_pipe, next_pipe, fallback, get_pipe, get_pipe_8x26, get_pipe_8x16,
  get_pipe_8994, get_pipe_default, is_yuv_class, dma_serves,
}

-- The first pipe that passes the test is claimed, or no pipe passes and nothing changes.
pub data Picked (o : Overlay) (t : PipeType) (s : PipeSpecs) (r : Overlay × ℕ) : Type 0 where
  nothing : r ≡ (o, ov_invalid) → NonePass 0 o.num_pipes (can_take o t s) → Picked o t s r
  picked :
      (d : ℕ)
      → r ≡ (take_pipe o s d, d)
      → FirstPass 0 o.num_pipes (can_take o t s) d
      → Picked o t s r

next_pipe-Found :
    (o : Overlay) (t : PipeType) (s : PipeSpecs) (d : ℕ)
    → o.num_pipes ≤ ov_invalid
    → Found 0 o.num_pipes (can_take o t s) ov_invalid d
    → Picked o t s (if d == ov_invalid then (o, d) else (take_pipe o s d, d))
next_pipe-Found o t s d b (inl (e, h)) = nothing (rw e) h
next_pipe-Found o t s d b (inr first) =
    let hi = first.2 in
    let real : (d == ov_invalid) ≡ false = ground arith in picked d (rw real) first

-- In a book of at most OV_MAX pipes nextPipe claims the first pipe that it may take, and refuses only where no pipe of
-- the type is free for the display, mixer and format; a refusal leaves the book as it was.
pub next_pipe-Picked :
    (o : Overlay) (t : PipeType) (s : PipeSpecs)
    → o.num_pipes ≤ ov_invalid
    → Picked o t s (next_pipe t s o)
unfolding next_pipe
next_pipe-Picked o t s b =
    next_pipe-Found o t s _ b
      (find_index-Found o.num_pipes 0 o.num_pipes (can_take o t s) ov_invalid (omega arith))

-- The pipe types that a layer may be given: video needs a VG pipe, and a DMA pipe cannot scale.
abbrev pub suits : PipeSpecs → PipeType → Bool
suits s t =
    if is_yuv_class s
    then same_type t vg
    else if s.needs_scaling
    then not (same_type t dma)
    else true

-- A request is refused without a trace, or a free pipe of a suitable type is claimed for it.
pub data Served (o : Overlay) (s : PipeSpecs) (r : Overlay × ℕ) : Type 0 where
  refused : r ≡ (o, ov_invalid) → Served o s r
  granted :
      (d : ℕ)
      → r ≡ (take_pipe o s d, d)
      → d < o.num_pipes
      → can_take o any s d ≡ true
      → suits s (o.pipe_type_lut d) ≡ true
      → Served o s r

module _ (o : Overlay) (s : PipeSpecs) (bound : o.num_pipes ≤ ov_invalid) where
  can_take_any : (t : PipeType) (d : ℕ) → can_take o t s d ≡ true → can_take o any s d ≡ true
  can_take_any t d p = ground arith

  can_take_type :
      (t : PipeType) (d : ℕ)
      → same_type t any ≡ false
      → can_take o t s d ≡ true
      → suits s t ≡ true
      → suits s (o.pipe_type_lut d) ≡ true
  can_take_type t d specific p fit = ground arith

  picked-Served :
      (t : PipeType) (r : Overlay × ℕ)
      → same_type t any ≡ false
      → suits s t ≡ true
      → Picked o t s r
      → Served o s r
  picked-Served t r specific fit (nothing e h) = refused e
  picked-Served t r specific fit (picked d e (p, lo, hi, h)) =
      granted d e hi (can_take_any t d p) (can_take_type t d specific p fit)

  next_pipe-Served :
      (t : PipeType) → same_type t any ≡ false → suits s t ≡ true → Served o s (next_pipe t s o)
  next_pipe-Served t specific fit = picked-Served t _ specific fit (next_pipe-Picked o t s bound)

  fallback-Served :
      (enabled : Bool) (t : PipeType) (r : Overlay × ℕ)
      → same_type t any ≡ false
      → (enabled ≡ true → suits s t ≡ true)
      → Served o s r
      → Served o s (fallback enabled t s r)
  fallback-Served false t r specific fit (refused e) = rw e (refused refl)
  fallback-Served true t r specific fit (refused e) = rw e (next_pipe-Served t specific (fit refl))
  fallback-Served enabled t r specific fit (granted d e hi p q) =
      let real : (d == ov_invalid) ≡ false = ground arith in rw e (rw real (granted d refl hi p q))

  video : is_yuv_class s ≡ true → Served o s (next_pipe vg s o)
  video y = next_pipe-Served vg refl (ground arith)

  none_yet : Served o s (o, ov_invalid)
  none_yet = refused refl

  branch :
      (b : Bool) (x y : Overlay × ℕ)
      → (b ≡ true → Served o s x)
      → (b ≡ false → Served o s y)
      → Served o s (if b then x else y)
  branch true x y p q = p refl
  branch false x y p q = q refl

  -- App layers try DMA, where it is allowed, before RGB and VG.
  app_layer :
      (spare : Bool)
      → is_yuv_class s ≡ false
      → (spare ≡ true → s.needs_scaling ≡ false)
      → Served o s (fallback true vg s (fallback true rgb s (fallback spare dma s (o, ov_invalid))))
  app_layer spare n plain =
      fallback-Served true vg _ refl (λ e. ground arith)
        (fallback-Served true rgb _ refl (λ e. ground arith)
          (fallback-Served spare dma _ refl (λ e. ground (arith, plain e)) none_yet))

  -- DMA as the last resort.
  dma_last :
      (spare : Bool) (r : Overlay × ℕ)
      → is_yuv_class s ≡ false
      → (spare ≡ true → s.needs_scaling ≡ false)
      → Served o s r
      → Served o s (fallback spare dma s r)
  dma_last spare r n plain h = fallback-Served spare dma r refl (λ e. ground (arith, plain e)) h

  rgb_then_vg : is_yuv_class s ≡ false → Served o s (fallback true vg s (next_pipe rgb s o))
  rgb_then_vg n =
      fallback-Served true vg _ refl (λ e. ground arith) (next_pipe-Served rgb refl (ground arith))

  get_pipe_8x26-Served : Served o s (get_pipe_8x26 s o)
  unfolding get_pipe_8x26
  get_pipe_8x26-Served = branch _ _ _ video λ n.
      branch (not s.fb) _ _ (λ app. app_layer (dma_serves s) n (λ e. ground arith))
        λ fb.
          dma_last (dma_serves s) _ n (λ e. ground arith)
            (fallback-Served (s.dpy == 0) vg _ refl (λ e. ground arith)
              (fallback-Served (s.dpy == 0) rgb _ refl (λ e. ground arith) none_yet))

  get_pipe_8x16-Served : Served o s (get_pipe_8x16 s o)
  unfolding get_pipe_8x16
  get_pipe_8x16-Served =
      branch _ _ _ (λ y. next_pipe-Served vg refl (ground arith))
        λ n.
          fallback-Served true vg _ refl (λ e. ground arith)
            (fallback-Served true dma _ refl (λ e. ground arith)
              (next_pipe-Served rgb refl (ground arith)))

  get_pipe_8994-Served : Served o s (get_pipe_8994 s o)
  unfolding get_pipe_8994
  get_pipe_8994-Served =
      branch _ _ _ video λ n. dma_last (not s.needs_scaling) _ n (λ e. ground arith) (rgb_then_vg n)

  get_pipe_default-Served : Served o s (get_pipe_default s o)
  unfolding get_pipe_default
  get_pipe_default-Served = branch _ _ _ video λ n.
      branch (not s.fb) _ _ (λ app. app_layer (not s.needs_scaling) n (λ e. ground arith))
        λ fb. dma_last (not s.needs_scaling) _ n (λ e. ground arith) (rgb_then_vg n)

  pub get_pipe-Served : (target : Target) → Served o s (get_pipe target s o)
  unfolding get_pipe
  get_pipe-Served target = elim (Bool-cases target.is8x26) [
    | inl a ↦ rw a get_pipe_8x26-Served
    | inr a ↦ elim (Bool-cases target.is8x16) [
      | inl b ↦ rw (a, b) get_pipe_8x16-Served
      | inr b ↦ elim (Bool-cases target.is8x39) [
        | inl c ↦ rw (a, b, c) get_pipe_8x16-Served
        | inr c ↦ elim (Bool-cases target.is8994) [
          | inl d ↦ rw (a, b, c, d) get_pipe_8994-Served
          | inr d ↦ rw (a, b, c, d) get_pipe_default-Served
        ]
      ]
    ]
  ]
