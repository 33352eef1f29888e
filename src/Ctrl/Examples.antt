-- ===== src/Ctrl/Examples.antt =====
-- The theorems on crops, orientations and `MdpCtrl` at concrete sources.
use android_device_casio_dtx.Base.{◌+◌, ◌%◌, ◌≤◌, ◌≡◌, ◌≢◌, refl, true, false, has_bit, arith, leb}
use android_device_casio_dtx.Utils.{
  Dim, Whf, hal_bits, normalize_crop, pre_rotate_source, get_mdp_orient,
}
use android_device_casio_dtx.Utils.Crop.{Within, normalize_crop-even, pre_rotate_source-Within}
use android_device_casio_dtx.Utils.Orient.{Orients, get_mdp_orient-Orients}
use android_device_casio_dtx.Ctrl.{Hardware, MdpCtrl, create, set}
use android_device_casio_dtx.Ctrl.Laws.{IsVideoCrop, set-IsVideoCrop, set_no_single_pixel}

abbrev full_hd : Whf
full_hd = record { w = 1920; h = 1080; format = 2 }

abbrev odd_crop : Dim
odd_crop = record { x = 11; y = 20; w = 640; h = 481 }

odd_crop-Within : Within full_hd odd_crop
odd_crop-Within = omega arith

normalize_crop-even_example :
    let r = normalize_crop 11 640 in
    (r.0 % 2 ≡ 0) × (r.1 % 2 ≡ 0) × (11 ≤ r.0) × (r.0 + r.1 ≤ 651) × (640 ≤ r.1 + 2)
normalize_crop-even_example = normalize_crop-even 11 640 (omega arith) (λ e. omega arith)

pre_rotate_source-Within_example : let r = pre_rotate_source 5 full_hd odd_crop in Within r.0 r.1
pre_rotate_source-Within_example = pre_rotate_source-Within 5 full_hd odd_crop odd_crop-Within

-- A quarter turn with a horizontal flip, for an old driver.
get_mdp_orient-Orients_example : Orients true 5 (get_mdp_orient hal_bits true 5)
get_mdp_orient-Orients_example = get_mdp_orient-Orients hal_bits true 5 refl (omega arith)

abbrev chip : Hardware
chip = record {
  mdp_version = 500;
  is8x74v2 = true;
  is8x26 = false;
  supports_decimation = true;
  max_mixer_width = 2048;
  bits = hal_bits;
  source_rotated_90 = 20;
  deinterlace = 31;
  log2_downscale = λ src dst. 0;
  is_yuv = λ format. leb 2 format;
}

abbrev video_ctrl : MdpCtrl
video_ctrl =
    let c = create 0 in
    record c { ov_info = record (c.ov_info) { src = full_hd; src_rect = odd_crop } }

abbrev rgb_ctrl : MdpCtrl
rgb_ctrl =
    let c = create 0 in
    record c {
      ov_info = record (c.ov_info) {
        src = record { w = 1920; h = 1080; format = 1 };
        src_rect = odd_crop;
        dst_rect = record { x = 0; y = 0; w = 639; h = 480 };
      };
    }

set-IsVideoCrop_example :
    let o = (set chip video_ctrl).0.ov_info in
    IsVideoCrop (has_bit 31 o.flags) (has_bit 20 o.flags) o.src o.src_rect
unfolding create
set-IsVideoCrop_example =
    set-IsVideoCrop chip video_ctrl (omega arith) refl odd_crop-Within (omega arith)

set_no_single_pixel_example :
    let o = (set chip rgb_ctrl).0.ov_info in
    (o.src_rect.w ≢ o.dst_rect.w + 1) × (o.src_rect.h ≢ o.dst_rect.h + 1)
unfolding create
set_no_single_pixel_example =
    set_no_single_pixel chip rgb_ctrl (omega arith) refl refl (omega arith) (omega arith)
      (omega arith)
