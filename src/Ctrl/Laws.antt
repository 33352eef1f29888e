-- ===== src/Ctrl/Laws.antt =====
-- What MdpCtrl::set guarantees of the parameters that reach the driver (overlayMdp.cpp).
use android_device_casio_dtx.Base.{
  ℕ, ◌+◌, ◌-◌, ◌%◌, ◌≤◌, ◌<◌, ◌≡◌, ◌≢◌, refl, Bool, true, false, has_bit, u32_mod, arith, ◌||◌,
  ◌&&◌, not, if◌then◌else◌,
}
use android_device_casio_dtx.Base.Masks.{bit_and_mask}
use android_device_casio_dtx.Utils.{Dim, Whf, pre_rotate_source, normalize_crop, aligndown}
use android_device_casio_dtx.Utils.Crop.{Within, pre_rotate_source-Within, normalize_crop-even}
use android_device_casio_dtx.Ctrl.{
  Hardware, MdpOverlay, MdpCtrl, do_transform, adjust_yuv, adjust_rgb, do_downscale, set,
}

-- A crop of which each axis can be rounded.
pub record HasRoom (c : Dim) : Type 0 where
  pub wide : 2 ≤ c.w
  pub high : 2 ≤ c.h

pre_rotate_source-HasRoom :
    (tr : ℕ) (whf : Whf) (c : Dim) → HasRoom c → HasRoom (pre_rotate_source tr whf c).1
unfolding pre_rotate_source
pre_rotate_source-HasRoom tr whf c v = ground arith

aligndown_four : (v : ℕ) → aligndown v 4 ≡ v - v % 4
unfolding aligndown
aligndown_four v = omega (arith, bit_and_mask 2 v)

-- What the driver accepts as the crop of a video source.
pub record IsVideoCrop (interlaced turned : Bool) (whf : Whf) (c : Dim) : Type 0 where
  pub x : c.x % 2 ≡ 0
  pub y : c.y % 2 ≡ 0
  pub w : c.w % 2 ≡ 0
  pub h : c.h % 2 ≡ 0
  pub lines : (if interlaced && not turned then c.h % 4 else 0) ≡ 0
  pub columns : (if interlaced && turned then c.w % 4 else 0) ≡ 0
  pub right : c.x + c.w ≤ whf.w
  pub bottom : c.y + c.h ≤ whf.h

module _ (hw : Hardware) where
  adjust_yuv-IsVideoCrop :
      (o : MdpOverlay)
      → 500 ≤ hw.mdp_version
      → Within o.src o.src_rect
      → HasRoom o.src_rect
      → IsVideoCrop
          (has_bit hw.deinterlace o.flags)
          (has_bit hw.source_rotated_90 o.flags)
          o.src
          (adjust_yuv hw o).src_rect
  unfolding adjust_yuv
  adjust_yuv-IsVideoCrop o v5 v room = ground (
    arith,
    normalize_crop-even o.src_rect.x o.src_rect.w,
    normalize_crop-even o.src_rect.y o.src_rect.h,
    aligndown_four (normalize_crop o.src_rect.y o.src_rect.h).1,
    aligndown_four (normalize_crop o.src_rect.x o.src_rect.w).1,
  )

  do_transform-format :
      (c : MdpCtrl) → (do_transform hw c).ov_info.src.format ≡ c.ov_info.src.format
  unfolding do_transform pre_rotate_source
  do_transform-format c = ground arith

  -- The decimation leaves the geometry alone.
  do_downscale_geometry :
      (c : MdpCtrl)
      → let o = (do_downscale hw c).ov_info in
        (o.src_rect ≡ c.ov_info.src_rect)
        × (o.dst_rect ≡ c.ov_info.dst_rect)
        × (o.src ≡ c.ov_info.src)
        × (o.flags ≡ c.ov_info.flags)
  unfolding do_downscale
  do_downscale_geometry c = ground arith

  adjust_yuv_rest :
      (o : MdpOverlay) → ((adjust_yuv hw o).src ≡ o.src) × ((adjust_yuv hw o).flags ≡ o.flags)
  unfolding adjust_yuv
  adjust_yuv_rest o = ground arith

  set_yuv :
      (c : MdpCtrl)
      → hw.is_yuv c.ov_info.src.format ≡ true
      → let t = (do_transform hw c).ov_info in
        let o = (set hw c).0.ov_info in
        (o.src_rect ≡ (adjust_yuv hw t).src_rect) × (o.src ≡ t.src) × (o.flags ≡ t.flags)
  unfolding set
  set_yuv c yuv =
      let t = do_transform hw c in
      let info = adjust_yuv hw t.ov_info in
      let tested : hw.is_yuv t.ov_info.src.format ≡ true = rw (do_transform-format c) yuv in
      rw tested (
        ground
          (arith, adjust_yuv_rest t.ov_info, do_downscale_geometry (record t { ov_info = info })))

  set_rgb :
      (c : MdpCtrl)
      → hw.is_yuv c.ov_info.src.format ≡ false
      → let r = adjust_rgb hw (do_transform hw c).ov_info in
        let o = (set hw c).0.ov_info in (o.src_rect ≡ r.src_rect) × (o.dst_rect ≡ r.dst_rect)
  unfolding set
  set_rgb c rgb =
      let t = do_transform hw c in
      let info = adjust_rgb hw t.ov_info in
      let tested : hw.is_yuv t.ov_info.src.format ≡ false = rw (do_transform-format c) rgb in
      rw tested (ground (arith, do_downscale_geometry (record t { ov_info = info })))

  do_transform-Within :
      (c : MdpCtrl)
      → Within c.ov_info.src c.ov_info.src_rect
      → let o = (do_transform hw c).ov_info in Within o.src o.src_rect
  unfolding do_transform
  do_transform-Within c v = pre_rotate_source-Within c.orientation _ _ v

  do_transform-HasRoom :
      (c : MdpCtrl) → HasRoom c.ov_info.src_rect → HasRoom (do_transform hw c).ov_info.src_rect
  unfolding do_transform
  do_transform-HasRoom c v = pre_rotate_source-HasRoom c.orientation c.ov_info.src _ v

  do_transform-dst_rect : (c : MdpCtrl) → (do_transform hw c).ov_info.dst_rect ≡ c.ov_info.dst_rect
  unfolding do_transform
  do_transform-dst_rect c = refl

  adjust_rgb_one_pixel :
      (o : MdpOverlay)
      → 500 ≤ hw.mdp_version
      → hw.is8x74v2 || hw.is8x26 ≡ true
      → Within o.src o.src_rect
      → o.dst_rect.w < u32_mod
      → o.dst_rect.h < u32_mod
      → let a = adjust_rgb hw o in
        (a.src_rect.w ≢ a.dst_rect.w + 1) × (a.src_rect.h ≢ a.dst_rect.h + 1)
  unfolding adjust_rgb
  adjust_rgb_one_pixel o v5 chip v bw bh = ground arith

  -- On MDSS_V5 or later, after `set` the crop of a video source, of at least 2 by 2 pixels and
  -- inside its source before, is even and lies in the turned source; of interlaced
  -- content the lines, or the columns if it is turned, are a multiple of 4.
  pub set-IsVideoCrop :
      (c : MdpCtrl)
      → 500 ≤ hw.mdp_version
      → hw.is_yuv c.ov_info.src.format ≡ true
      → Within c.ov_info.src c.ov_info.src_rect
      → HasRoom c.ov_info.src_rect
      → let o = (set hw c).0.ov_info in
        IsVideoCrop
          (has_bit hw.deinterlace o.flags)
          (has_bit hw.source_rotated_90 o.flags)
          o.src
          o.src_rect
  set-IsVideoCrop c v5 yuv v room =
      let (rect, src, flags) = set_yuv c yuv in
      rw (rect, src, flags)
        (adjust_yuv-IsVideoCrop (do_transform hw c).ov_info v5 (do_transform-Within c v)
          (do_transform-HasRoom c room))

  -- After `set` on MDSS_V5 chips that cannot do it, an RGB source with a crop inside it is not one pixel larger than its
  -- target in either direction.
  pub set_no_single_pixel :
      (c : MdpCtrl)
      → 500 ≤ hw.mdp_version
      → hw.is8x74v2 || hw.is8x26 ≡ true
      → hw.is_yuv c.ov_info.src.format ≡ false
      → Within c.ov_info.src c.ov_info.src_rect
      → c.ov_info.dst_rect.w < u32_mod
      → c.ov_info.dst_rect.h < u32_mod
      → let o = (set hw c).0.ov_info in
        (o.src_rect.w ≢ o.dst_rect.w + 1) × (o.src_rect.h ≢ o.dst_rect.h + 1)
  set_no_single_pixel c v5 chip rgb v bw bh =
      let (rect, target) = set_rgb c rgb in
      let same = do_transform-dst_rect c in
      rw (rect, target)
        (adjust_rgb_one_pixel (do_transform hw c).ov_info v5 chip (do_transform-Within c v)
          (rw same bw) (rw same bh))
