-- ===== src/Gralloc/Bounds.antt =====
-- Bounds on ALIGN and on products of dimensions (gr.h, alloc_controller.cpp).
use native.Mathlib.Nat.{mod-lt}
use android_device_casio_dtx.Base.{ℕ, ◌+◌, ◌-◌, ◌%◌, ◌^◌, ◌≤◌, ◌<◌, ◌≡◌, u32_mod, arith}
use android_device_casio_dtx.Base.Masks.{bit_and_mask, pow_pos}
use android_device_casio_dtx.Gralloc.{align_up}

-- ALIGN to a power of two, as a remainder.
pub align_up_pow :
    (k x : ℕ)
    → x + 2 ^ k ≤ u32_mod
    → align_up x (2 ^ k) ≡ x + (2 ^ k - 1) - (x + (2 ^ k - 1)) % 2 ^ k
unfolding align_up
align_up_pow k x h =
    let p = pow_pos k in let m = bit_and_mask k ((x + (2 ^ k - 1)) % u32_mod) in ground arith

-- ALIGN to a power of two gives the next multiple, where nothing wraps.
pub align_up_next :
    (k x : ℕ) → x + 2 ^ k ≤ u32_mod → let r = align_up x (2 ^ k) in (x ≤ r) × (r < x + 2 ^ k)
align_up_next k x h =
    let p = pow_pos k in
    let e = align_up_pow k x h in let m = mod-lt (x + (2 ^ k - 1)) p in (omega arith, omega arith)
