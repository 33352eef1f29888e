-- ===== src/Gralloc/Buffer.antt =====
-- A buffer from alloc_buffer, and its planes (alloc_controller.cpp).
use android_device_casio_dtx.Base.{
  ℕ, ◌%◌, ◌≤◌, ◌≡◌, refl, ap, sym, subst, ◌∙◌, Bool, true, false, not, Option, none, some, arith,
  if◌then◌else◌,
}
use android_device_casio_dtx.Base.Int.{ℤ, pos, negsuc}
use android_device_casio_dtx.Gralloc.{Format, Platform}
use android_device_casio_dtx.Gralloc.Size.{get_yuv_plane_info}
use android_device_casio_dtx.Gralloc.Room.{max_dim}
use android_device_casio_dtx.Gralloc.Planes.{Placed, VenusRoom, planes_in_buffer}
use android_device_casio_dtx.Gralloc.Heap.{
  HeapBits, AllocData, IonAlloc, Handle, is_zero, marked, allocate, attributes, buffer_data,
  handle_of, alloc_buffer,
}
use android_device_casio_dtx.Gralloc.Fallback.{Attempts, once, twice, allocate-Attempts}

-- IonAlloc::alloc_buffer fills in the address and the descriptor; the size is the caller's.
abbrev pub KeepsSize : IonAlloc → Type 0
KeepsSize ion = (x : AllocData) → (ion x).0.size ≡ x.size

marked_size : (r : AllocData × ℤ) → (marked r).0.size ≡ r.0.size
marked_size (x, pos n) = refl
marked_size (x, negsuc n) = refl

marked_ion : (r : AllocData × ℤ) → is_zero (marked r).1 ≡ true → (marked r).0.uses_ion ≡ true
marked_ion (x, pos n) e = refl
marked_ion (x, negsuc n) e = ground arith

module _ (b : HeapBits) (ion : IonAlloc) (keeps : KeepsSize ion) (d : AllocData) (usage : ℕ) where
  Attempts-size : (r : AllocData × ℤ) → Attempts b ion d usage r → r.0.size ≡ d.size
  Attempts-size r (once q e) = ap (λ t. t.0.size) e ∙ marked_size _ ∙ keeps _
  Attempts-size r (twice q n e) = ap (λ t. t.0.size) e ∙ marked_size _ ∙ keeps _ ∙ keeps _

  Attempts-ion :
      (r : AllocData × ℤ) → Attempts b ion d usage r → is_zero r.1 ≡ true → r.0.uses_ion ≡ true
  Attempts-ion r (once q e) z =
      ap (λ t. t.0.uses_ion) e ∙ marked_ion _ (ap (λ t. is_zero t.1) (sym e) ∙ z)
  Attempts-ion r (twice q n e) z =
      ap (λ t. t.0.uses_ion) e ∙ marked_ion _ (ap (λ t. is_zero t.1) (sym e) ∙ z)

-- What alloc_buffer answers for a result of `allocate`: no handle where it failed, else one whose
-- planes lie in the memory.
pub data Allocated (p : Platform) (format : Format) (failed : Bool) (out : Option Handle)
    : Type 0 where
  refused : failed ≡ true → out ≡ none → Allocated p format failed out
  granted :
      (k : Handle)
      → failed ≡ false
      → out ≡ some k
      → k.uses_ion ≡ true
      → Placed format k.height k.size (get_yuv_plane_info p format k.width k.height none)
      → Allocated p format failed out

module _ (p : Platform) (b : HeapBits) (ion : IonAlloc) (page width height : ℕ) (format : Format)
    (usage : ℕ) where
  Allocated-of :
      (r : AllocData × ℤ)
      → (t : Bool) → is_zero r.1 ≡ t
      → (is_zero r.1 ≡ true → r.0.uses_ion ≡ true)
      → Placed format (attributes p b width height format usage).aligned_h r.0.size (
          get_yuv_plane_info p format
            (attributes p b width height format usage).aligned_w
            (attributes p b width height format usage).aligned_h
            none)
      → Allocated p format (not (is_zero r.1)) (
          if is_zero r.1
          then some (handle_of (attributes p b width height format usage) format r.0)
          else none)
  Allocated-of r true e f v =
      rw e (
        granted (handle_of (attributes p b width height format usage) format r.0) refl refl (f e) v)
  Allocated-of r false e f v = rw e (refused refl refl)

  -- alloc_buffer refuses exactly where `allocate` reports an error, and else gives a handle on ion
  -- memory in which every plane that getYUVPlaneInfo reports lies; the driver keeps the size, and
  -- the dimensions and the Venus layout are as for `planes_in_buffer`.
  pub alloc_buffer-Allocated :
      KeepsSize ion
      → width % 2 ≡ 0
      → height % 2 ≡ 0
      → width ≤ 16000
      → height ≤ 16000
      → p.is_packed format ≡ false
      → VenusRoom p width height
      → (attributes p b width height format usage).aligned_w ≤ max_dim
      → (attributes p b width height format usage).aligned_h ≤ max_dim
      → let d = buffer_data (attributes p b width height format usage) b page usage in
        Allocated p format
          (not (is_zero (allocate b ion d usage).1))
          (alloc_buffer p b ion page width height format usage)
  unfolding alloc_buffer
  alloc_buffer-Allocated keeps ew eh bw bh plain venus aw ah =
      let a = attributes p b width height format usage in
      let d = buffer_data a b page usage in
      let tried = allocate-Attempts b ion d usage in
      let r = allocate b ion d usage in
      let size : r.0.size ≡ a.size = Attempts-size b ion keeps d usage r tried in
      let planes : Placed format a.aligned_h a.size
          (get_yuv_plane_info p format a.aligned_w a.aligned_h none) =
        planes_in_buffer p width height ew eh bw bh _ format usage plain venus aw ah in
      Allocated-of r (is_zero r.1) refl (Attempts-ion b ion keeps d usage r tried) (
        subst
          (λ n.
            Placed format a.aligned_h n (get_yuv_plane_info p format a.aligned_w a.aligned_h none))
          (sym size) planes)
