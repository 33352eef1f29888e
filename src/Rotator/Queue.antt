-- ===== src/Rotator/Queue.antt =====
-- liboverlay/overlayMdssRot.cpp: the buffers of the MDSS rotator, and the queueing of a source.
use android_device_casio_dtx.Base.{
  ℕ, ◌-◌, ◌*◌, ◌%◌, Bool, true, false, ◌&&◌, ◌||◌, not, Option, none, some, has_bit, ◌==◌,
  if◌then◌else◌, u32_mod, for_range, update,
}
use android_device_casio_dtx.Utils.{Dim, Whf}
use android_device_casio_dtx.Rotator.Memory.{
  OvMem, RotMem, Allocator, rot_num_bufs, open_mem, close_rot_mem, next_slot,
}
use android_device_casio_dtx.Rotator.Scale.{calc_compressed_buf_size}
use android_device_casio_dtx.Rotator.Mdss.{RotPlatform, RotInfo, MdssRot, reset}

abbrev pub same_dim : Dim → Dim → Bool
same_dim a b = a.x == b.x && a.y == b.y && a.w == b.w && a.h == b.h

abbrev pub same_whf : Whf → Whf → Bool
same_whf a b = a.w == b.w && a.h == b.h && a.format == b.format

-- memcmp of the two `mdp_overlay`s.
abbrev pub same_info : RotInfo → RotInfo → Bool
same_info a b =
    a.id == b.id
    && same_whf a.src b.src
    && same_dim a.src_rect b.src_rect
    && same_dim a.dst_rect b.dst_rect
    && a.flags == b.flags
    && a.driver == b.driver

unfoldable pub rot_conf_changed : MdssRot → Bool
rot_conf_changed r = not (same_info r.rot_info r.ls_rot_info)

unfoldable pub rot_data_changed : ℕ → ℕ → MdssRot → Bool
rot_data_changed fd offset r =
    not (fd == r.rot_data.src_memory_id && offset == r.rot_data.src_offset)

unfoldable pub is_rot_cached : ℕ → ℕ → MdssRot → Bool
unfolding rot_conf_changed rot_data_changed
is_rot_cached fd offset r =
    not (r.rot_cache_disabled || rot_conf_changed r || rot_data_changed fd offset r)

unfoldable pub save : MdssRot → MdssRot
save r = record r { ls_rot_info = r.rot_info }

unfoldable pub calc_output_buf_size : RotPlatform → MdssRot → ℕ
unfolding calc_compressed_buf_size
calc_output_buf_size p r =
    let i = r.rot_info in
    let dest : Whf = record { w = i.dst_rect.w; h = i.dst_rect.h; format = i.src.format } in
    if has_bit p.bwc_en i.flags
    then calc_compressed_buf_size (p.is_yuv dest.format) dest
    else p.output_size dest

-- What the allocator, free_buffer and the driver's play will answer.
pub record Answers : Type 0 where
  pub allocate : Allocator
  pub freed : Bool
  pub played : Bool

unfoldable pub take_mem : Option OvMem → MdssRot → Bool × MdssRot
take_mem none r = (false, r)
take_mem (some m) r = (
  true,
  record r {
    rot_data = record (r.rot_data) {
      dst_memory_id = elim (m.fd) [ none ↦ u32_mod - 1 | some fd ↦ fd ];
      dst_offset = 0;
    };
    rot_mem = record (r.rot_mem) { mem = m };
  },
)

unfoldable pub open_i : RotPlatform → Allocator → ℕ → ℕ → MdssRot → Bool × MdssRot
unfolding open_mem take_mem
open_i p allocate num_bufs buf_sz r =
    take_mem
      (open_mem allocate p.page_size num_bufs buf_sz (has_bit p.secure_session r.rot_info.flags)) r

unfoldable pub set_offsets : ℕ → ℕ → MdssRot → MdssRot
unfolding for_range
set_offsets num_bufs buf_sz r = record r {
  rot_mem = record (r.rot_mem) {
    rot_offset =
        for_range num_bufs 0 (λ i offset. update offset i (i * buf_sz % u32_mod))
          r.rot_mem.rot_offset;
  };
}

-- The end of `remap`, after the close and after the open, which returned their flags.
unfoldable pub after_open : ℕ → ℕ → Bool × MdssRot → Bool × MdssRot
unfolding set_offsets
after_open num_bufs size (false, r) = (false, r)
after_open num_bufs size (true, r) = (true, set_offsets num_bufs size r)

unfoldable pub after_close :
    RotPlatform → Allocator → ℕ → ℕ → MdssRot → Bool × RotMem → Bool × MdssRot
unfolding open_i after_open
after_close p allocate num_bufs size r (false, m) = (false, record r { rot_mem = m })
after_close p allocate num_bufs size r (true, m) =
    after_open num_bufs size (open_i p allocate num_bufs size (record r { rot_mem = m }))

unfoldable pub remap : RotPlatform → Answers → ℕ → MdssRot → Bool × MdssRot
unfolding close_rot_mem after_close calc_output_buf_size
remap p a num_bufs r =
    let size = calc_output_buf_size p r in
    if size == r.rot_mem.mem.buf_sz
    then (true, r)
    else after_close p a.allocate num_bufs size r (close_rot_mem a.freed r.rot_mem)

unfoldable pub set_src : ℕ → ℕ → MdssRot → MdssRot
set_src fd offset r = record r {
  rot_data = record (r.rot_data) { src_memory_id = fd; src_offset = offset };
}

unfoldable pub set_dst_offset : MdssRot → MdssRot
set_dst_offset r = record r {
  rot_data = record (r.rot_data) { dst_offset = r.rot_mem.rot_offset r.rot_mem.curr_index };
}

-- After a successful play. `none` is the fault of a remainder by 0.
unfoldable pub advance : MdssRot → Option (Bool × MdssRot)
unfolding save next_slot
advance r = elim (next_slot r.rot_mem) [
  | none ↦ none
  | some m ↦ some (true, record (save r) { rot_mem = m })
]

-- What follows the remap, which returned `mapped`.
unfoldable pub play : Bool → ℕ → ℕ → Bool × MdssRot → Option (Bool × MdssRot)
unfolding set_src set_dst_offset advance
play played prev_fd prev_offset mapped =
    if not mapped.0
    then some (false, mapped.1)
    else let r = set_dst_offset mapped.1 in
      if not played then some (false, set_src prev_fd prev_offset r) else advance r

unfoldable pub queue_buffer : RotPlatform → Answers → ℕ → ℕ → MdssRot → Option (Bool × MdssRot)
unfolding is_rot_cached set_src remap play
queue_buffer p a fd offset r =
    if r.enabled && not (is_rot_cached fd offset r)
    then play a.played r.rot_data.src_memory_id r.rot_data.src_offset
        (remap p a rot_num_bufs (set_src fd offset r))
    else some (true, r)

-- `unset` and `fd_closed` are what the driver and close answer; mFd is mem_valid.
unfoldable pub close : Bool → Bool → Bool → MdssRot → Bool × MdssRot
unfolding close_rot_mem reset
close unset fd_closed freed r =
    let session = not (r.rot_info.id == u32_mod - 1) in
    let mem = close_rot_mem freed r.rot_mem in
    (not (session && not unset) && fd_closed && mem.0, reset record r { rot_mem = mem.1 })
