-- ===== src/Rotator/Buffers.antt =====
-- The two buffers of the MDSS rotator: when they are mapped, and what a remap makes of them.
use android_device_casio_dtx.Base.{
  ℕ, ◌+◌, ◌≤◌, ◌<◌, ◌≡◌, ◌⊎◌, inl, inr, Bool-cases, refl, sym, ap, subst, ◌∙◌, Bool, true, false,
  Option, none, some, ◌==◌, arith, branch, u32_mod, for_range,
}
use android_device_casio_dtx.Base.Masks.{bit_and_mask}
use native.Mathlib.Nat.{mod-lt}
use android_device_casio_dtx.Utils.{align}
use android_device_casio_dtx.Rotator.Memory.{
  OvMem, RotMem, Allocator, Mapping, mapped_mem, create_mem, open_mem, close_mem, close_rot_mem,
  aligned_size, mem_valid,
}
use android_device_casio_dtx.Rotator.Mdss.{RotPlatform, RotInfo, MdssRot}
use android_device_casio_dtx.Rotator.Queue.{
  Answers, calc_output_buf_size, open_i, take_mem, after_open, after_close, set_offsets, remap,
}

-- What a remap leaves alone.
pub record RotSession : Type 0 where
  pub rot_info : RotInfo
  pub ls_rot_info : RotInfo
  pub rot_cache_disabled : Bool
  pub src_memory_id : ℕ
  pub src_offset : ℕ
  pub curr_index : ℕ

abbrev pub rot_session : MdssRot → RotSession
rot_session r = record {
  rot_info = r.rot_info;
  ls_rot_info = r.ls_rot_info;
  rot_cache_disabled = r.rot_cache_disabled;
  src_memory_id = r.rot_data.src_memory_id;
  src_offset = r.rot_data.src_offset;
  curr_index = r.rot_mem.curr_index;
}

-- Two buffers of `size` bytes, one after the other, in the memory that was asked for.
pub record IsMapped (size : ℕ) (m : RotMem) : Type 0 where
  pub bytes : m.mem.buf_sz ≡ size
  pub buffers : m.mem.num_buffers ≡ 2
  pub first : m.rot_offset 0 ≡ 0
  pub second : m.rot_offset 1 ≡ size
  pub room : size ≤ m.mem.buf_sz_aligned

-- The memory is closed, or holds two buffers.
abbrev pub MemIsSound : RotMem → Type 0
MemIsSound m = (m.mem ≡ create_mem) ⊎ IsMapped m.mem.buf_sz m

abbrev pub IsSound : MdssRot → Type 0
IsSound r = MemIsSound r.rot_mem

aligned_size_le : (size : ℕ) (secure : Bool) → size ≤ aligned_size size secure
unfolding aligned_size align
aligned_size_le size true =
    omega
      (arith, bit_and_mask 20 (size + 1048575), mod-lt (size + 1048575) {m = 1048576} (omega arith))
aligned_size_le size false = omega arith

-- The outcome of a remap to `size` bytes.
pub data Remaps (size : ℕ) (r : MdssRot) : Bool × MdssRot → Type 0 where
  refused : {q : MdssRot} → rot_session q ≡ rot_session r → IsSound q → Remaps size r (false, q)
  mapped :
      {q : MdssRot}
      → rot_session q ≡ rot_session r
      → IsMapped size q.rot_mem
      → Remaps size r (true, q)

Remaps-trans :
    (size : ℕ) (r q : MdssRot) (o : Bool × MdssRot)
    → rot_session q ≡ rot_session r
    → Remaps size q o
    → Remaps size r o
Remaps-trans size r q o e (refused f v) = refused (f ∙ e) v
Remaps-trans size r q o e (mapped f v) = mapped (f ∙ e) v

-- A close leaves the slots alone, and the memory as it was or closed.
close_rot_mem-Closes :
    (freed : Bool) (m : RotMem)
    → ((close_rot_mem freed m).1 ≡ m) ⊎ ((close_rot_mem freed m).1 ≡ record m { mem = create_mem })
unfolding close_rot_mem close_mem mem_valid
close_rot_mem-Closes freed m = elim (Bool-cases (mem_valid m.mem)) [
  | inl e ↦ elim (Bool-cases freed) [ inl f ↦ inr (ground arith) | inr f ↦ inl (ground arith) ]
  | inr e ↦ inl (ground arith)
]

module _ (p : RotPlatform) (allocate : Allocator) (size : ℕ) (small : size < u32_mod) where
  -- Memory that was just opened.
  abbrev IsOpened : Option OvMem → Type 0
  IsOpened none = Unit
  IsOpened (some m) = (m.buf_sz ≡ size) × (m.num_buffers ≡ 2) × (size ≤ m.buf_sz_aligned)

  mapped_mem-IsOpened : (secure : Bool) (a : Option Mapping) → IsOpened (mapped_mem 2 size secure a)
  unfolding mapped_mem
  mapped_mem-IsOpened secure none = tt
  mapped_mem-IsOpened secure (some a) = (refl, refl, aligned_size_le size secure)

  take_mem-Remaps :
      (o : Option OvMem) (r : MdssRot)
      → IsOpened o
      → IsSound r
      → Remaps size r (after_open 2 size (take_mem o r))
  unfolding take_mem after_open set_offsets for_range
  take_mem-Remaps none r h v = refused refl v
  take_mem-Remaps (some m) r (bytes, two, room) v = mapped refl record {
    bytes = bytes;
    buffers = two;
    first = omega arith;
    second = omega (arith, small);
    room = room;
  }

  after_close-Remaps :
      (r : MdssRot) (c : Bool × RotMem)
      → MemIsSound c.1
      → c.1.curr_index ≡ r.rot_mem.curr_index
      → Remaps size r (after_close p allocate 2 size r c)
  unfolding after_close open_i open_mem
  after_close-Remaps r (false, m) v e =
      refused (ap (λ i. record (rot_session r) { curr_index = i }) e) v
  after_close-Remaps r (true, m) v e =
      Remaps-trans size r (record r { rot_mem = m }) _
        (ap (λ i. record (rot_session r) { curr_index = i }) e)
        (take_mem-Remaps _ (record r { rot_mem = m }) (mapped_mem-IsOpened _ _) v)

  closed-Remaps :
      (freed : Bool) (r : MdssRot)
      → IsSound r
      → Remaps size r (after_close p allocate 2 size r (close_rot_mem freed r.rot_mem))
  closed-Remaps freed r v = elim (close_rot_mem-Closes freed r.rot_mem) [
    | inl e ↦
        after_close-Remaps r _ (subst MemIsSound (sym e) v) (ap (λ (m : RotMem). m.curr_index) e)
    | inr e ↦
        after_close-Remaps r _ (subst MemIsSound (sym e) (inl refl))
          (ap (λ (m : RotMem). m.curr_index) e)
  ]

kept_buffers :
    (size : ℕ) (r : MdssRot)
    → 0 < size
    → size ≡ r.rot_mem.mem.buf_sz
    → IsSound r
    → IsMapped size r.rot_mem
kept_buffers size r h e (inl c) = absurd (omega (arith, h, e, ap (λ (m : OvMem). m.buf_sz) c))
kept_buffers size r h e (inr m) = subst (λ n. IsMapped n r.rot_mem) (sym e) m

-- A remap to a size that is not 0 either refuses, with the buffers kept or closed, or maps two buffers of the size.
pub remap-Remaps :
    (p : RotPlatform) (a : Answers) (r : MdssRot)
    → 0 < calc_output_buf_size p r
    → calc_output_buf_size p r < u32_mod
    → IsSound r
    → Remaps (calc_output_buf_size p r) r (remap p a 2 r)
unfolding remap
remap-Remaps p a r pos small v =
    let size = calc_output_buf_size p r in
    branch (size == r.rot_mem.mem.buf_sz) (Remaps size r) (true, r)
      (after_close p a.allocate 2 size r (close_rot_mem a.freed r.rot_mem))
      (λ same. mapped refl (kept_buffers size r pos (ground arith) v))
      (λ new. closed-Remaps p a.allocate size small a.freed r v)
