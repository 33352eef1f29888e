-- ===== src/Gralloc/Fallback.antt =====
-- The attempts of IonController::allocate, and what alloc_buffer hands out
-- (alloc_controller.cpp).
use Prim.Native.Nat.{bit_and}
use android_device_casio_dtx.Base.{
  ℕ, ◌≡◌, refl, Bool, true, false, ◌&&◌, ◌||◌, not, has_bit, set_bit, ◌==◌, if◌then◌else◌, arith,
}
use android_device_casio_dtx.Base.Int.{ℤ}
use android_device_casio_dtx.Gralloc.Heap.{
  HeapBits, AllocData, IonAlloc, names_heap, external_only, can_fallback, ion_flags, is_negative,
  prepared, marked, allocate,
}

-- The requests that may not fall back to the system heap.
abbrev pub is_bound : HeapBits → ℕ → Bool
is_bound b usage =
    b.composes_with_mdp
    || names_heap b usage
    || has_bit b.protected_bit usage
    || has_bit external_only usage
    || not (bit_and (ion_flags b usage) b.system_heap_id == 0)

-- How the ion driver was called, and what came of it.
pub data Attempts (b : HeapBits) (ion : IonAlloc) (d : AllocData) (usage : ℕ) (r : AllocData × ℤ)
    : Type 0 where
  -- The first attempt settles it: it succeeded, or the request may not fall back.
  once :
      (is_negative (ion (prepared b d usage)).1 && not (is_bound b usage)) ≡ false
      → r ≡ marked (ion (prepared b d usage))
      → Attempts b ion d usage r
  -- The first failed, and the system heap decides.
  twice :
      is_negative (ion (prepared b d usage)).1 ≡ true
      → is_bound b usage ≡ false
      → r
        ≡ marked
            (ion (record ((ion (prepared b d usage)).0) { flags = set_bit b.system_heap_id 0 }))
      → Attempts b ion d usage r

module _ (b : HeapBits) (ion : IonAlloc) (d : AllocData) (usage : ℕ) where
  falls_back :
      is_negative (ion (prepared b d usage)).1
        && can_fallback b usage (not (bit_and (ion_flags b usage) b.system_heap_id == 0))
      ≡ is_negative (ion (prepared b d usage)).1 && not (is_bound b usage)
  unfolding can_fallback
  falls_back = ground arith

  Attempts-of :
      (t : Bool)
      → is_negative (ion (prepared b d usage)).1 && not (is_bound b usage) ≡ t
      → Attempts b ion d usage (
          marked (
            if t
            then ion (record ((ion (prepared b d usage)).0) { flags = set_bit b.system_heap_id 0 })
            else ion (prepared b d usage)))
  Attempts-of true e = twice (ground arith) (ground arith) refl
  Attempts-of false e = once e refl

  pub allocate-Attempts : Attempts b ion d usage (allocate b ion d usage)
  unfolding allocate
  allocate-Attempts = rw falls_back (Attempts-of _ refl)
