-- ===== src/Rotator/Caching.antt =====
-- Queueing a source on the MDSS rotator: what is written where, and when the rotation is skipped.
use android_device_casio_dtx.Base.{
  ℕ, ◌+◌, ◌*◌, ◌%◌, ◌≤◌, ◌<◌, ◌≡◌, Bool, true, false, not, ◌&&◌, Option, some, add32,
}
use android_device_casio_dtx.Rotator.Memory.{create_mem}
use android_device_casio_dtx.Rotator.Mdss.{MdssRot}
use android_device_casio_dtx.Rotator.Queue.{is_rot_cached, save, set_dst_offset}
use android_device_casio_dtx.Rotator.Buffers.{rot_session, IsMapped, IsSound}

-- Buffer `slot` of two buffers of `size` bytes was written from the source, and the other is next.
pub record Written (size fd offset : ℕ) (r q : MdssRot) : Type 0 where
  pub slot : r.rot_mem.curr_index < 2
  pub place : q.rot_data.dst_offset ≡ r.rot_mem.curr_index * size
  pub room : q.rot_data.dst_offset + size ≤ q.rot_mem.mem.buf_sz_aligned * q.rot_mem.mem.num_buffers
  pub other : q.rot_mem.curr_index + r.rot_mem.curr_index ≡ 1
  pub cached : is_rot_cached fd offset q ≡ not r.rot_cache_disabled
  pub buffers : IsMapped size q.rot_mem

-- The outcomes of `queue_buffer`.
pub data Queues (size fd offset : ℕ) (r : MdssRot) : Option (Bool × MdssRot) → Type 0 where
  skipped :
      (r.enabled && not (is_rot_cached fd offset r)) ≡ false
      → Queues size fd offset r (some (true, r))
  unmapped :
      {q : MdssRot}
      → rot_session q ≡ record (rot_session r) { src_memory_id = fd; src_offset = offset }
      → IsSound q
      → Queues size fd offset r (some (false, q))
  unplayed :
      {q : MdssRot}
      → rot_session q ≡ rot_session r
      → IsMapped size q.rot_mem
      → Queues size fd offset r (some (false, q))
  queued : {q : MdssRot} → Written size fd offset r q → Queues size fd offset r (some (true, q))

-- The rotator after a successful play on mapped buffers.
abbrev written : MdssRot → MdssRot
written q = record (save (set_dst_offset q)) {
  rot_mem = record (q.rot_mem) { curr_index = add32 q.rot_mem.curr_index 1 % 2 };
}

-- The rotator whose new buffers could not be allocated.
abbrev pub starved : ℕ → ℕ → MdssRot → MdssRot
starved fd offset r = record r {
  rot_data = record (r.rot_data) { src_memory_id = fd; src_offset = offset };
  rot_mem = record (r.rot_mem) { mem = create_mem };
}
