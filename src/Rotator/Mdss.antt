-- ===== src/Rotator/Mdss.antt =====
-- liboverlay/overlayMdssRot.cpp, and the caching test of `Rotator` in overlayRotator.cpp: the
-- rotator of MDSS_V5. An int that may be -1 is held as its `uint32_t` pattern.
use Prim.Native.Nat.{bit_or}
use android_device_casio_dtx.Base.{
  ℕ, ◌-◌, ◌/◌, Bool, true, false, ◌&&◌, ◌||◌, not, Option, none, some, has_bit, set_bit, clear_bit,
  ◌==◌, if◌then◌else◌, u32_mod,
}
use android_device_casio_dtx.Utils.{Dim, Whf, MdpBits, get_mdp_orient}
use android_device_casio_dtx.Ctrl.{new_request}
use android_device_casio_dtx.Rotator.Memory.{RotMem, create_rot_mem}
use android_device_casio_dtx.Rotator.Scale.{get_format_adjusted_crop, get_downscale_adjusted_crop}

-- Bits of the kernel's msm_mdp.h, the formats, and what other parts answer: the size of an
-- uncompressed buffer is gralloc's.
pub record RotPlatform : Type 0 where
  pub bits : MdpBits
  pub secure_session : ℕ
  pub deinterlace : ℕ
  pub bwc_en : ℕ
  pub is_yuv : ℕ → Bool
  pub output_size : Whf → ℕ
  pub page_size : ℕ

-- MDSS_MDP_ROT_ONLY is 0x80.
abbrev pub rot_only : ℕ
rot_only = 7

-- The fields of `mdp_overlay` that the code uses; `driver` stands for the others.
pub record RotInfo : Type 0 where
  pub id : ℕ
  pub src : Whf
  pub src_rect : Dim
  pub dst_rect : Dim
  pub flags : ℕ
  pub driver : ℕ

-- `msmfb_overlay_data`: the source and the target of a rotation.
pub record RotData : Type 0 where
  pub id : ℕ
  pub src_memory_id : ℕ
  pub src_offset : ℕ
  pub dst_memory_id : ℕ
  pub dst_offset : ℕ

pub record MdssRot : Type 0 where
  pub rot_info : RotInfo
  pub ls_rot_info : RotInfo
  pub rot_data : RotData
  pub orientation : ℕ
  pub rot_mem : RotMem
  pub enabled : Bool
  pub downscale : ℕ
  pub rot_cache_disabled : Bool

abbrev zero_dim : Dim
zero_dim = record { x = 0; y = 0; w = 0; h = 0 }

abbrev pub no_info : RotInfo
no_info = record {
  id = 0;
  src = record { w = 0; h = 0; format = 0 };
  src_rect = zero_dim;
  dst_rect = zero_dim;
  flags = 0;
  driver = 0;
}

unfoldable pub reset : MdssRot → MdssRot
reset r = record r {
  rot_info = record no_info { id = new_request };
  ls_rot_info = no_info;
  rot_data = record {
    id = 0;
    src_memory_id = u32_mod - 1;
    src_offset = 0;
    dst_memory_id = 0;
    dst_offset = 0;
  };
  rot_mem = record (r.rot_mem) { rot_offset = λ i. 0; curr_index = 0 };
  orientation = 0;
  downscale = 0;
}

-- A new rotator. The constructor leaves mEnabled as it finds it.
unfoldable pub create : Bool → Bool → MdssRot
unfolding reset
create enabled rot_cache_disabled = reset record {
  rot_info = no_info;
  ls_rot_info = no_info;
  rot_data = record {
    id = 0;
    src_memory_id = 0;
    src_offset = 0;
    dst_memory_id = 0;
    dst_offset = 0;
  };
  orientation = 0;
  rot_mem = create_rot_mem;
  enabled = enabled;
  downscale = 0;
  rot_cache_disabled = rot_cache_disabled;
}

unfoldable pub set_source : Whf → MdssRot → MdssRot
set_source whf r = record r { rot_info = record (r.rot_info) { src = whf } }

unfoldable pub set_crop : Dim → MdssRot → MdssRot
set_crop crop r = record r { rot_info = record (r.rot_info) { src_rect = crop } }

unfoldable pub set_downscale : ℕ → MdssRot → MdssRot
set_downscale downscale r = record r { downscale = downscale }

unfoldable pub set_flags : ℕ → MdssRot → MdssRot
set_flags flags r = record r { rot_info = record (r.rot_info) { flags = flags } }

-- From MDSS_V5 on, so getMdpOrient swaps no flips.
unfoldable pub set_transform : RotPlatform → ℕ → MdssRot → MdssRot
set_transform p rot r =
    let b = p.bits in
    let cleared = clear_bit b.rot_90 (clear_bit b.flip_ud (clear_bit b.flip_lr r.rot_info.flags)) in
    let flags = get_mdp_orient b false rot in
    record r {
      rot_info = record (r.rot_info) { flags = bit_or cleared flags };
      orientation = flags;
    }

unfoldable pub is_rot_buf_reusable : RotPlatform → ℕ → MdssRot → Bool
is_rot_buf_reusable p flags r =
    let old = has_bit p.secure_session r.rot_info.flags in
    let new = has_bit p.secure_session flags in
    not (not (r.rot_info.flags == 0) && (old && not new || not old && new))

-- `mOrientation & OVERLAY_TRANSFORM_ROT_90` reads bit 2 of the stored word.
unfoldable pub do_transform : ℕ → RotInfo → RotInfo
do_transform orientation i =
    let d = i.dst_rect in
    record i {
      flags = bit_or i.flags orientation;
      dst_rect = if has_bit 2 orientation then record d { w = d.h; h = d.w } else d;
    }

unfoldable pub adjusted_crop : RotPlatform → MdssRot → Dim
unfolding get_format_adjusted_crop get_downscale_adjusted_crop
adjusted_crop p r =
    let i = r.rot_info in
    get_downscale_adjusted_crop
      (get_format_adjusted_crop (p.is_yuv i.src.format) (has_bit p.deinterlace i.flags) i.src_rect)
      r.downscale

unfoldable pub scaled : ℕ → ℕ → ℕ
scaled downscale extent = if downscale == 0 then extent else extent / downscale

-- What commit hands to the driver.
unfoldable pub committed_info : RotPlatform → MdssRot → RotInfo
unfolding adjusted_crop scaled do_transform
committed_info p r =
    let crop = adjusted_crop p r in
    let turned = do_transform r.orientation record (r.rot_info) {
      src_rect = crop;
      dst_rect = record {
        x = 0;
        y = 0;
        w = scaled r.downscale crop.w;
        h = scaled r.downscale crop.h;
      };
    } in
    record turned { flags = set_bit rot_only turned.flags }

-- `set_overlay` is the driver: it refuses, or returns the parameters with what it wrote.
unfoldable pub commit : RotPlatform → (RotInfo → Option RotInfo) → MdssRot → Bool × MdssRot
unfolding committed_info
commit p set_overlay r =
    let i = committed_info p r in
    elim (set_overlay i) [
      | none ↦ (false, record r { rot_info = i; downscale = 0; enabled = false })
      | some j ↦ (
        true,
        record r {
          rot_info = j;
          downscale = 0;
          enabled = true;
          rot_data = record (r.rot_data) { id = j.id };
        },
      )
    ]
