-- ===== src/Rotator/Memory.antt =====
-- liboverlay/overlayMem.h: `OvMem`, the buffers of a rotator, and overlayRotator.h and
-- overlayRotator.cpp: `RotMem`, which adds the slots, their offsets and their release fences.
-- `closed` and `waited` list the fences that were closed and waited on. What the allocator and the
-- driver answer is a parameter; `none` as a descriptor or as an address is -1, and as a result a
-- fault: an index past the array, or a remainder by 0.
use android_device_casio_dtx.Base.{
  ℕ, ◌*◌, ◌%◌, Bool, true, false, ◌&&◌, Option, none, some, is_some, List, [], ◌∷◌, ◌++◌, leb, ◌==◌,
  if◌then◌else◌, u32_mod, sub32, add32, update,
}
use android_device_casio_dtx.Utils.{align}

pub record OvMem : Type 0 where
  pub fd : Option ℕ
  pub base_addr : Option ℕ
  pub alloc_type : ℕ
  pub buf_sz : ℕ
  pub num_buffers : ℕ
  pub buf_sz_aligned : ℕ

-- What `allocate` hands back.
pub record Mapping : Type 0 where
  pub fd : ℕ
  pub base : ℕ
  pub alloc_type : ℕ

-- From the size, the alignment and whether the memory is secure, which fixes the flags.
abbrev pub Allocator : Type 0
Allocator = ℕ → ℕ → Bool → Option Mapping

abbrev pub size_1m : ℕ
size_1m = 1048576

abbrev pub create_mem : OvMem
create_mem = record {
  fd = none;
  base_addr = none;
  alloc_type = 0;
  buf_sz = 0;
  num_buffers = 0;
  buf_sz_aligned = 0;
}

unfoldable pub aligned_size : ℕ → Bool → ℕ
aligned_size buf_sz is_secure = if is_secure then align buf_sz size_1m else buf_sz

unfoldable pub alloc_size : ℕ → ℕ → Bool → ℕ
unfolding aligned_size
alloc_size num_bufs buf_sz is_secure = aligned_size buf_sz is_secure * num_bufs % u32_mod

-- From what the allocator answers. The object of a failed open is thrown away by the only caller.
unfoldable pub mapped_mem : ℕ → ℕ → Bool → Option Mapping → Option OvMem
unfolding aligned_size
mapped_mem num_bufs buf_sz is_secure none = none
mapped_mem num_bufs buf_sz is_secure (some a) = some record {
  fd = some (a.fd);
  base_addr = some (a.base);
  alloc_type = a.alloc_type;
  buf_sz = buf_sz;
  num_buffers = num_bufs;
  buf_sz_aligned = aligned_size buf_sz is_secure;
}

unfoldable pub open_mem : Allocator → ℕ → ℕ → ℕ → Bool → Option OvMem
unfolding mapped_mem alloc_size
open_mem allocate page_size num_bufs buf_sz is_secure = mapped_mem num_bufs buf_sz is_secure (
    allocate (alloc_size num_bufs buf_sz is_secure) (if is_secure then size_1m else page_size)
      is_secure)

unfoldable pub mem_valid : OvMem → Bool
mem_valid m = is_some m.fd && is_some m.base_addr

-- `freed` is whether free_buffer succeeds.
unfoldable pub close_mem : Bool → OvMem → Bool × OvMem
unfolding mem_valid
close_mem freed m =
    if mem_valid m then (if freed then (true, create_mem) else (false, m)) else (true, m)

abbrev pub rot_num_bufs : ℕ
rot_num_bufs = 2

pub record RotMem : Type 0 where
  pub rot_offset : ℕ → ℕ
  pub rel_fence : ℕ → Option ℕ
  pub curr_index : ℕ
  pub mem : OvMem
  pub closed : List (Option ℕ)
  pub waited : List ℕ

abbrev pub create_rot_mem : RotMem
create_rot_mem = record {
  rot_offset = λ i. 0;
  rel_fence = λ i. none;
  curr_index = 0;
  mem = create_mem;
  closed = [];
  waited = [];
}

unfoldable pub close_rot_mem : Bool → RotMem → Bool × RotMem
unfolding mem_valid close_mem
close_rot_mem freed m =
    if mem_valid m.mem
    then (let r = close_mem freed m.mem in (r.0, record m { mem = r.1 }))
    else (true, m)

-- The destructor.
unfoldable pub destroy_rot_mem : RotMem → RotMem
destroy_rot_mem m = record m {
  rel_fence = λ i. if leb rot_num_bufs i then m.rel_fence i else none;
  closed = m.closed ++ m.rel_fence 0 ∷ m.rel_fence 1 ∷ [];
}

-- The fence of a slot replaced; a fence that was there is closed, after a wait where `waits`.
unfoldable pub replace_fence : Bool → ℕ → Option ℕ → RotMem → RotMem
replace_fence waits i fence m = elim (m.rel_fence i) [
  | none ↦ record m { rel_fence = update (m.rel_fence) i fence }
  | some old ↦ record m {
    rel_fence = update (m.rel_fence) i fence;
    closed = m.closed ++ some old ∷ [];
    waited = if waits then m.waited ++ old ∷ [] else m.waited;
  }
]

unfoldable pub set_curr_buf_release_fd : Option ℕ → RotMem → Option RotMem
unfolding replace_fence
set_curr_buf_release_fd fence m =
    if leb rot_num_bufs m.curr_index then none else some (replace_fence true m.curr_index fence m)

unfoldable pub prev_index : ℕ → ℕ → ℕ
prev_index curr num = sub32 (add32 curr num) 1 % num

unfoldable pub set_prev_buf_release_fd : Option ℕ → RotMem → Option RotMem
unfolding replace_fence prev_index
set_prev_buf_release_fd fence m =
    let num = m.mem.num_buffers in
    let i = prev_index m.curr_index num in
    if num == 0
    then none
    else if leb rot_num_bufs i
    then none
    else some (replace_fence false i fence m)

-- mMem.mCurrIndex = (mMem.mCurrIndex + 1) % mMem.mem.numBufs()
unfoldable pub next_slot : RotMem → Option RotMem
next_slot m =
    let num = m.mem.num_buffers in
    if num == 0 then none else some (record m { curr_index = add32 m.curr_index 1 % num })
