-- ===== src/Rotator/Examples.antt =====
-- The theorems on rotators at concrete calls, buffers and extents.
use android_device_casio_dtx.Base.{
  ℕ, zero, suc, ◌*◌, refl, true, false, none, some, List, [], ◌∷◌, leb, if◌then◌else◌, arith,
}
use android_device_casio_dtx.Utils.{hal_bits}
use android_device_casio_dtx.Rotator.Manager.{create_rot_mgr}
use android_device_casio_dtx.Rotator.Pool.{
  Call, begin_call, next_call, done_call, clear_call, unused_call, empty_pool, pool_run, run,
  pool_step, lend,
}
use android_device_casio_dtx.Rotator.Refine.{Agrees, create_rot_mgr-Agrees}
use android_device_casio_dtx.Rotator.Memory.{OvMem, create_rot_mem}
use android_device_casio_dtx.Rotator.Fences.{
  FenceCall, curr_fence, prev_fence, next_buffer, fence_run, Closes, fence_run-Closes,
}
use android_device_casio_dtx.Rotator.Mdss.{RotPlatform, RotInfo, MdssRot, create}
use android_device_casio_dtx.Rotator.Queue.{Answers}

abbrev three_rounds : List Call
three_rounds =
    begin_call
    ∷ next_call
    ∷ next_call
    ∷ unused_call 1
    ∷ next_call
    ∷ next_call
    ∷ done_call
    ∷ begin_call
    ∷ next_call
    ∷ done_call
    ∷ begin_call
    ∷ next_call
    ∷ next_call
    ∷ next_call
    ∷ next_call
    ∷ next_call
    ∷ clear_call
    ∷ []

-- Only the sessions given back have a condition.
abbrev nothing_more :
    Unit {0}
    × (Unit {0}
        × (Unit {0}
            × (Unit {0}
                × (Unit {0}
                    × (Unit {0}
                        × (Unit {0}
                            × (Unit {0}
                                × (Unit {0}
                                    × (Unit {0}
                                        × (Unit {0} × (Unit {0} × (Unit {0} × Unit {0}))))))))))))
nothing_more = (tt, (tt, (tt, (tt, (tt, (tt, (tt, (tt, (tt, (tt, (tt, (tt, (tt, tt)))))))))))))

create_rot_mgr-Agrees_example :
    Agrees (run 500 three_rounds create_rot_mgr) (pool_run 500 three_rounds empty_pool)
unfolding pool_step lend
create_rot_mgr-Agrees_example =
    create_rot_mgr-Agrees 500 three_rounds (tt, (tt, (tt, (omega arith, nothing_more))))

abbrev two_buffers : OvMem
two_buffers = record {
  fd = some 30;
  base_addr = some 4096;
  alloc_type = 1;
  buf_sz = 1000;
  num_buffers = 2;
  buf_sz_aligned = 1000;
}

abbrev some_fences : List FenceCall
some_fences =
    curr_fence (some 7)
    ∷ next_buffer
    ∷ curr_fence (some 8)
    ∷ prev_fence (some 7)
    ∷ next_buffer
    ∷ curr_fence none
    ∷ []

fence_run-Closes_example :
    Closes 7 2 (fence_run some_fences (record create_rot_mem { mem = two_buffers }))
fence_run-Closes_example = fence_run-Closes 7 two_buffers some_fences refl

abbrev msm : RotPlatform
msm = record {
  bits = hal_bits;
  secure_session = 16;
  deinterlace = 31;
  bwc_en = 10;
  is_yuv = λ format. leb 2 format;
  output_size = λ whf. whf.w * whf.h * 4;
  page_size = 4096;
}

abbrev granted : Answers
granted = record {
  allocate = λ size align secure. some record { fd = 40; base = 65536; alloc_type = 1 };
  freed = true;
  played = true;
}

abbrev refused : Answers
refused = record { allocate = λ size align secure. none; freed = true; played = true }

abbrev vga : RotInfo
vga = record {
  id = 3;
  src = record { w = 640; h = 480; format = 1 };
  src_rect = record { x = 0; y = 0; w = 640; h = 480 };
  dst_rect = record { x = 0; y = 0; w = 480; h = 640 };
  flags = 132;
  driver = 0;
}

abbrev committed : MdssRot
committed = record (create true false) { rot_info = vga }

-- The same with mapped buffers of another size.
abbrev running : MdssRot
running = record committed { rot_mem = record create_rot_mem { mem = two_buffers } }

-- The greatest power of two up to `d`, from `p` on, below 2 ^ 24.
unfoldable floor_from : ℕ → ℕ → ℕ → ℕ
floor_from zero p d = p
floor_from (suc n) p d = let more = floor_from n (2 * p) d in if leb (2 * p) d then more else p

abbrev power_floor : ℕ → ℕ
power_floor zero = 0
power_floor (suc d) = floor_from 24 1 (suc d)
