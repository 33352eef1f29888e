-- ===== src/Gralloc/Room.antt =====
-- How much room getSize leaves for luma and chroma (alloc_controller.cpp).
use native.Mathlib.Nat.{mul-le-mul, mul-le-mul_left, mod-eq_of_lt}
use android_device_casio_dtx.Base.{ℕ, ◌+◌, ◌*◌, ◌/◌, ◌%◌, ◌≤◌, ◌<◌, ◌≡◌, ap, u32_mod, arith, add32}
use android_device_casio_dtx.Gralloc.{nv21_zsl, Platform, mul32, align_up}
use android_device_casio_dtx.Gralloc.Bounds.{align_up_next, align_up_pow}
use android_device_casio_dtx.Gralloc.Size.{get_size, with_half}

abbrev pub max_dim : ℕ
max_dim = 16384

pub mul_max : (a b : ℕ) → a ≤ max_dim → b ≤ max_dim → a * b ≤ 268435456
mul_max a b h k = mul-le-mul h k

pub half_lines : (w h : ℕ) → 2 * (w * (h / 2)) ≤ w * h
half_lines w h = let m : w * (2 * (h / 2)) ≤ w * h = mul-le-mul_left w (omega arith) in omega arith

pub align_4k : (x : ℕ) → x + 4096 ≤ u32_mod → (x ≤ align_up x 4096) × (align_up x 4096 < x + 4096)
align_4k x h = align_up_next 12 x h

pub align_32 : (x : ℕ) → x + 32 ≤ u32_mod → (x ≤ align_up x 32) × (align_up x 32 < x + 32)
align_32 x h = align_up_next 5 x h

module _ (p : Platform) (width height w h : ℕ) (bw : w ≤ max_dim) (bh : h ≤ max_dim) where
  -- 4:2:0, one chroma plane of half the lines.
  pub with_half_room :
      (extra : ℕ)
      → extra ≤ 1
      → w * h + w * (h / 2) ≤ align_up (add32 (with_half (mul32 w h)) extra) 4096
  with_half_room extra e =
      ground
        (arith, half_lines w h, mul_max w h bw bh, align_4k (add32 (with_half (mul32 w h)) extra))

  pub get_size_nv21_zsl : w * h + w * (h / 2) ≤ get_size p nv21_zsl width height w h
  unfolding get_size
  get_size_nv21_zsl =
      ground (arith, half_lines w h, mul_max w h bw bh, align_4k (with_half (mul32 w h)))

  -- 4:2:2, a chroma plane as large as luma.
  pub double_room : w * h + w * h ≤ align_up (mul32 (mul32 w h) 2) 4096
  double_room = ground (arith, mul_max w h bw bh, align_4k (mul32 (mul32 w h) 2))

  -- Planar 4:2:0.
  pub yv12_room :
      (c : ℕ)
      → c ≤ max_dim
      → w * h + 2 * (c * (h / 2)) ≤ align_up (add32 (mul32 w h) (mul32 (mul32 c (h / 2)) 2)) 4096
  yv12_room c bc = ground (
    arith,
    mul_max w h bw bh,
    mul_max c (h / 2) bc (omega arith),
    align_4k (add32 (mul32 w h) (mul32 (mul32 c (h / 2)) 2)),
  )

-- The two planes of the Adreno layout, each rounded up to 4096 bytes.
pub adreno_sum :
    (w h c l : ℕ)
    → w * h ≤ 268435456
    → 2 * c ≤ max_dim
    → 2 * c * l ≤ 268435456
    → w * (h / 2) ≤ 2 * c * l
    → w * h + w * (h / 2) ≤ add32 (align_up (mul32 w h) 4096) (align_up (mul32 (mul32 2 c) l) 4096)
adreno_sum w h c l a d b chroma =
    let small : mul32 2 c * l ≡ 2 * c * l =
      let e : 2 * c % u32_mod ≡ 2 * c = mod-eq_of_lt (omega arith) in ap (λ (t : ℕ). t * l) e in
    ground (arith, align_4k (mul32 w h), align_4k (mul32 (mul32 2 c) l))

-- An even width rounded up to 32 is at most twice its half rounded up to 32.
pub align_up_half :
    (width : ℕ) → width % 2 ≡ 0 → width ≤ 16000 → align_up width 32 ≤ 2 * align_up (width / 2) 32
align_up_half width e b =
    omega (arith, align_up_pow 5 width (omega arith), align_up_pow 5 (width / 2) (omega arith))
