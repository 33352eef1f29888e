-- ===== src/Gralloc/Heap.antt =====
-- The heap of a buffer (alloc_controller.cpp: canFallback, useUncached, IonController::allocate,
-- alloc_buffer, free_buffer). The usage bits of gralloc_priv.h are bit numbers here.
use Prim.Native.Nat.{bit_and, bit_or}
use android_device_casio_dtx.Base.{
  ℕ, zero, Bool, true, false, ◌&&◌, ◌||◌, not, Option, none, some, has_bit, set_bit, ◌==◌,
  if◌then◌else◌,
}
use android_device_casio_dtx.Base.Int.{ℤ, pos, negsuc}
use android_device_casio_dtx.Gralloc.{Format, Platform}
use android_device_casio_dtx.Gralloc.Size.{BufferAttributes, get_buffer_attributes}

-- The bits and masks of the system's gralloc.h and ion headers, and the composition type.
pub record HeapBits : Type 0 where
  -- GRALLOC_USAGE_PRIVATE_0 to GRALLOC_USAGE_PRIVATE_3, and GRALLOC_USAGE_PROTECTED.
  pub private_0 : ℕ
  pub private_1 : ℕ
  pub private_2 : ℕ
  pub private_3 : ℕ
  pub protected_bit : ℕ
  pub sw_read_mask : ℕ
  pub sw_read_rarely : ℕ
  pub sw_write_mask : ℕ
  pub sw_write_rarely : ℕ
  -- The ids of the ion heaps, and the bit of ION_SECURE.
  pub sf_heap_id : ℕ
  pub system_heap_id : ℕ
  pub iommu_heap_id : ℕ
  pub cp_mm_heap_id : ℕ
  pub camera_heap_id : ℕ
  pub adsp_heap_id : ℕ
  pub secure_bit : ℕ
  -- The composition type has COMPOSITION_TYPE_MDP.
  pub composes_with_mdp : Bool

abbrev pub adsp_heap : ℕ
adsp_heap = 24

abbrev pub uncached_bit : ℕ
uncached_bit = 25

abbrev pub external_only : ℕ
external_only = 27

abbrev pub camera_heap : ℕ
camera_heap = 22

-- usage & GRALLOC_HEAP_MASK.
abbrev pub names_heap : HeapBits → ℕ → Bool
names_heap b usage =
    has_bit b.private_1 usage
    || has_bit b.private_0 usage
    || has_bit b.private_2 usage
    || has_bit b.private_3 usage
    || has_bit adsp_heap usage

unfoldable pub can_fallback : HeapBits → ℕ → Bool → Bool
can_fallback b usage tried_system =
    if b.composes_with_mdp
    then false
    else if tried_system
    then false
    else if names_heap b usage || has_bit b.protected_bit usage
    then false
    else if names_heap b usage || has_bit external_only usage
    then false
    else true

unfoldable pub use_uncached : HeapBits → ℕ → Bool
use_uncached b usage =
    has_bit uncached_bit usage
    || bit_and usage b.sw_write_mask == b.sw_write_rarely
    || bit_and usage b.sw_read_mask == b.sw_read_rarely

-- `alloc_data`, and the flags of `allocType`: secure and ion.
pub record AllocData : Type 0 where
  pub base : ℕ
  pub fd : ℤ
  pub offset : ℕ
  pub size : ℕ
  pub align : ℕ
  pub uncached : Bool
  pub flags : ℕ
  pub secure_buffer : Bool
  pub uses_ion : Bool

-- IonAlloc::alloc_buffer: what it leaves in its argument, and the error.
abbrev pub IonAlloc : Type 0
IonAlloc = AllocData → AllocData × ℤ

-- One `if(usage & bit) ionFlags |= ION_HEAP(id);`.
abbrev pub on_usage : ℕ → ℕ → ℕ → ℕ → ℕ
on_usage bit id usage flags = if has_bit bit usage then set_bit id flags else flags

-- The flags before the default.
unfoldable pub requested_flags : HeapBits → ℕ → ℕ
requested_flags b usage =
    let f0 = on_usage b.private_1 b.sf_heap_id usage 0 in
    let f1 = on_usage b.private_0 b.system_heap_id usage f0 in
    let f2 = on_usage b.private_2 b.iommu_heap_id usage f1 in
    let f3 =
      if has_bit b.protected_bit usage
      then if has_bit b.private_3 usage
        then set_bit b.secure_bit (set_bit b.cp_mm_heap_id f2)
        else set_bit b.iommu_heap_id f2
      else if has_bit b.private_3 usage
      then set_bit b.iommu_heap_id f2
      else f2 in
    let f4 = on_usage camera_heap b.camera_heap_id usage f3 in
    on_usage adsp_heap b.adsp_heap_id usage f4

unfoldable pub ion_flags : HeapBits → ℕ → ℕ
unfolding requested_flags
ion_flags b usage =
    let flags = requested_flags b usage in
    if flags == 0 then set_bit b.iommu_heap_id (set_bit b.sf_heap_id 0) else flags

abbrev pub is_negative : ℤ → Bool
is_negative (pos n) = false
is_negative (negsuc n) = true

-- The second attempt, from the system heap, where the first failed and policy allows it.
abbrev pub retry : HeapBits → IonAlloc → ℕ → ℕ → AllocData × ℤ → AllocData × ℤ
retry b ion usage flags first =
    if is_negative first.1 && can_fallback b usage (not (bit_and flags b.system_heap_id == 0))
    then ion (record (first.0) { flags = set_bit b.system_heap_id 0 })
    else first

-- The data of the first attempt; the other flags of `allocType` are reset.
abbrev pub prepared : HeapBits → AllocData → ℕ → AllocData
prepared b d usage = record d {
  uncached = use_uncached b usage;
  secure_buffer = has_bit b.secure_bit (requested_flags b usage);
  uses_ion = false;
  flags = ion_flags b usage;
}

abbrev pub marked : AllocData × ℤ → AllocData × ℤ
marked (result, ret) =
    if is_negative ret then (result, ret) else (record result { uses_ion = true }, ret)

unfoldable pub allocate : HeapBits → IonAlloc → AllocData → ℕ → AllocData × ℤ
unfolding use_uncached requested_flags ion_flags can_fallback
allocate b ion d usage = marked (retry b ion usage (ion_flags b usage) (ion (prepared b d usage)))

-- A `private_handle_t` as alloc_buffer fills it.
pub record Handle : Type 0 where
  pub fd : ℤ
  pub size : ℕ
  pub secure_buffer : Bool
  pub uses_ion : Bool
  pub format : Format
  pub width : ℕ
  pub height : ℕ
  pub base : ℕ
  pub offset : ℕ

abbrev pub is_zero : ℤ → Bool
is_zero (pos zero) = true
is_zero _ = false

abbrev pub attributes : Platform → HeapBits → ℕ → ℕ → Format → ℕ → BufferAttributes
attributes p b w h format usage =
    get_buffer_attributes p (bit_or b.sw_read_mask b.sw_write_mask) w h format usage

abbrev pub buffer_data : BufferAttributes → HeapBits → ℕ → ℕ → AllocData
buffer_data a b page usage = record {
  base = 0;
  fd = negsuc 0;
  offset = 0;
  size = a.size;
  align = page;
  uncached = use_uncached b usage;
  flags = 0;
  secure_buffer = false;
  uses_ion = false;
}

abbrev pub handle_of : BufferAttributes → Format → AllocData → Handle
handle_of a format result = record {
  fd = result.fd;
  size = result.size;
  secure_buffer = result.secure_buffer;
  uses_ion = result.uses_ion;
  format = format;
  width = a.aligned_w;
  height = a.aligned_h;
  base = result.base;
  offset = result.offset;
}

-- `none` is -ENOMEM.
unfoldable pub alloc_buffer :
    Platform → HeapBits → IonAlloc → ℕ → ℕ → ℕ → Format → ℕ → Option Handle
unfolding get_buffer_attributes use_uncached allocate
alloc_buffer p b ion page w h format usage =
    let a = attributes p b w h format usage in
    let (result, err) = allocate b ion (buffer_data a b page usage) usage in
    if is_zero err then some (handle_of a format result) else none
