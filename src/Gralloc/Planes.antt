-- ===== src/Gralloc/Planes.antt =====
-- The planes of getYUVPlaneInfo and the size of getSize (alloc_controller.cpp).
use native.Mathlib.Nat.{mul-le-mul, mul_left_comm}
use android_device_casio_dtx.Base.{
  ℕ, ◌+◌, ◌*◌, ◌/◌, ◌%◌, ◌≤◌, ◌<◌, ◌≡◌, refl, sym, ap, subst, ◌∙◌, Bool, true, false, Option, none,
  some, u32_mod, arith, add32, ◌==◌,
}
use android_device_casio_dtx.Gralloc.{
  Format, ycrcb_420_sp_adreno, yv12, ycbcr_420_sp, ycrcb_420_sp, ycbcr_422_sp, ycrcb_422_sp,
  ycbcr_420_sp_venus, nv12_encodeable, nv21_zsl, Platform, mul32, align_up,
}
use android_device_casio_dtx.Gralloc.Bounds.{align_up_next}
use android_device_casio_dtx.Gralloc.Room.{
  max_dim, mul_max, align_32, adreno_sum, align_up_half, with_half_room, get_size_nv21_zsl,
  double_room, yv12_room,
}
use android_device_casio_dtx.Gralloc.Size.{
  Planes, is_macro_tile_enabled, semi_planar_alignment, cb_first, cr_first, plane_info, get_size,
  planar_dimensions, get_aligned_width_and_height, get_yuv_plane_info, get_buffer_attributes,
}

-- The lines of a chroma plane.
abbrev pub chroma_lines : Format → ℕ → ℕ
chroma_lines ycbcr_422_sp height = height
chroma_lines ycrcb_422_sp height = height
chroma_lines _ height = height / 2

-- Luma ends where chroma begins, and both chroma planes end in the buffer; of two that are
-- interleaved the second begins, and ends, one byte later.
pub record Fits (lines height size : ℕ) (r : Planes) : Type 0 where
  pub luma_cb : r.y + r.ystride * height ≤ r.cb
  pub luma_cr : r.y + r.ystride * height ≤ r.cr
  pub cb_end : r.cb + r.cstride * lines < size + r.chroma_step
  pub cr_end : r.cr + r.cstride * lines < size + r.chroma_step

cb_first-Fits :
    (w h lines size : ℕ)
    → w * h < u32_mod
    → w * h + w * lines ≤ size
    → Fits lines h size (cb_first w h)
cb_first-Fits w h lines size b e = ground arith

cr_first-Fits :
    (w h lines size : ℕ)
    → w * h < u32_mod
    → w * h + w * lines ≤ size
    → Fits lines h size (cr_first w h)
cr_first-Fits w h lines size b e = ground arith

abbrev planar : ℕ → ℕ → ℕ → Planes
planar w h c = record {
  y = 0;
  cr = mul32 w h;
  cb = mul32 w h + mul32 c h / 2;
  ystride = w;
  cstride = c;
  chroma_step = 1;
}

even_product : (c h : ℕ) → h % 2 ≡ 0 → c * h ≡ 2 * (c * (h / 2))
even_product c h e =
    let twice : h ≡ 2 * (h / 2) = omega arith in
    ap (λ (t : ℕ). c * t) twice ∙ mul_left_comm c 2 (h / 2)

planar-Fits :
    (w h c size : ℕ)
    → h % 2 ≡ 0
    → w * h < u32_mod
    → c * h < u32_mod
    → w * h + 2 * (c * (h / 2)) ≤ size
    → Fits (h / 2) h size (planar w h c)
planar-Fits w h c size e b d room = ground (arith, even_product c h e)

-- The formats that getYUVPlaneInfo serves.
abbrev pub has_planes : Format → Bool
has_planes ycbcr_420_sp = true
has_planes ycbcr_422_sp = true
has_planes ycbcr_420_sp_venus = true
has_planes nv12_encodeable = true
has_planes ycrcb_420_sp = true
has_planes ycrcb_422_sp = true
has_planes ycrcb_420_sp_adreno = true
has_planes nv21_zsl = true
has_planes yv12 = true
has_planes _ = false

-- What getYUVPlaneInfo answers for a buffer of a size: no planes for a format that is not
-- semi-planar or planar, else planes that fit.
pub data Placed (format : Format) (height size : ℕ) : Option Planes → Type 0 where
  unsupported : has_planes format ≡ false → Placed format height size none
  placed :
      (r : Planes)
      → Fits (chroma_lines format height) height size r
      → Placed format height size (some r)

-- What the size of msm_media_info.h leaves room for: luma lines, and half as many for chroma.
pub record VenusRoom (p : Platform) (width height : ℕ) : Type 0 where
  pub room :
      p.venus_y_stride width * p.venus_y_scanlines height
        + p.venus_y_stride width * (p.venus_y_scanlines height / 2)
      ≤ p.venus_buffer_size width height

module _ (p : Platform) (width height : ℕ) (ew : width % 2 ≡ 0) (eh : height % 2 ≡ 0)
    (bw : width ≤ 16000) (bh : height ≤ 16000) where
  adreno_room :
      let w = align_up width 32 in
      w * height + w * (height / 2) ≤ get_size p ycrcb_420_sp_adreno width height w height
  unfolding get_size
  adreno_room =
      let w = align_up width 32 in
      let c = align_up (width / 2) 32 in
      let l = align_up (height / 2) 32 in
      let (w0, w1) = align_32 width (omega arith) in
      let (c0, c1) = align_32 (width / 2) (omega arith) in
      let (l0, l1) = align_32 (height / 2) (omega arith) in
      adreno_sum w height c l (mul_max w height (omega arith) (omega arith)) (omega arith)
        (mul_max (2 * c) l (omega arith) (omega arith)) (mul-le-mul (align_up_half width ew bw) l0)

  yv12-Fits :
      (w : ℕ)
      → w ≤ max_dim
      → Placed yv12 height (get_size p yv12 width height w height) (plane_info yv12 w height)
  unfolding get_size plane_info
  yv12-Fits w b =
      let c = align_up (w / 2) 16 in
      let (c0, c1) = align_up_next 4 (w / 2) (omega arith) in
      let room = yv12_room p width height w height b (omega arith) c (omega arith) in
      let size = align_up (add32 (mul32 w height) (mul32 (mul32 c (height / 2)) 2)) 4096 in
      placed _ (
        subst (λ n. Fits (height / 2) height n (planar w height c)) (sym even_sizes)
          (planar-Fits w height c size eh (omega (arith, mul_max w height b (omega arith)))
            (omega (arith, mul_max c height (omega arith) (omega arith))) room))
    where
      even_sizes :
          get_size p yv12 width height w height
          ≡ align_up
              (add32 (mul32 w height) (mul32 (mul32 (align_up (w / 2) 16) (height / 2)) 2))
              4096
      even_sizes = ground arith

  venus_planes :
      VenusRoom p width height
      → p.venus_y_stride width ≤ max_dim
      → p.venus_y_scanlines height ≤ max_dim
      → Fits
          (p.venus_y_scanlines height / 2)
          (p.venus_y_scanlines height)
          (p.venus_buffer_size width height)
          (cb_first (p.venus_y_stride width) (p.venus_y_scanlines height))
  venus_planes v a b =
      cb_first-Fits (p.venus_y_stride width) (p.venus_y_scanlines height) _ _
        (omega (arith, mul_max (p.venus_y_stride width) (p.venus_y_scanlines height) a b)) v.room

  planes_of :
      (format : Format)
      → VenusRoom p width height
      → let d = planar_dimensions p width height format in
        d.0 ≤ max_dim
        → d.1 ≤ max_dim
        → Placed format d.1 (get_size p format width height d.0 d.1) (plane_info format d.0 d.1)
  unfolding planar_dimensions get_size plane_info
  planes_of ycbcr_420_sp v a b =
      let w = align_up width (semi_planar_alignment p) in
      placed _ (
        cb_first-Fits w height _ _ (omega (arith, mul_max w height a b))
          (with_half_room p width height w height a b 1 (omega arith)))
  planes_of ycrcb_420_sp v a b =
      let w = align_up width (semi_planar_alignment p) in
      placed _ (
        cr_first-Fits w height _ _ (omega (arith, mul_max w height a b))
          (with_half_room p width height w height a b 1 (omega arith)))
  planes_of ycrcb_420_sp_adreno v a b =
      let w = align_up width 32 in
      placed _ (cr_first-Fits w height _ _ (omega (arith, mul_max w height a b)) adreno_room)
  planes_of yv12 v a b = yv12-Fits (align_up width 16) a
  planes_of ycbcr_422_sp v a b =
      let w = align_up width 16 in
      let even : (width % 2 == 1) ≡ false = ground arith in
      let size = align_up (mul32 (mul32 w height) 2) 4096 in
      rw even (
        placed _ (
          cb_first-Fits w height height size (omega (arith, mul_max w height a b))
            (double_room p width height w height a b)))
  planes_of ycrcb_422_sp v a b =
      let w = align_up width 16 in
      let even : (width % 2 == 1) ≡ false = ground arith in
      let size = align_up (mul32 (mul32 w height) 2) 4096 in
      rw even (
        placed _ (
          cr_first-Fits w height height size (omega (arith, mul_max w height a b))
            (double_room p width height w height a b)))
  planes_of ycbcr_420_sp_venus v a b = placed _ (venus_planes v a b)
  planes_of nv12_encodeable v a b = placed _ (venus_planes v a b)
  planes_of nv21_zsl v a b =
      let w = align_up width 64 in
      let h = align_up height 64 in
      placed _ (
        cr_first-Fits w h _ _ (omega (arith, mul_max w h a b))
          (get_size_nv21_zsl p width height w h a b))
  planes_of _ v a b = unsupported refl

  plain_dimensions :
      (format : Format) (tile : Bool)
      → p.is_packed format ≡ false
      → get_aligned_width_and_height p width height format tile
        ≡ planar_dimensions p width height format
  unfolding get_aligned_width_and_height
  plain_dimensions format tile plain = rw plain refl

  -- The planes that getYUVPlaneInfo reports for a buffer with the attributes that gralloc gave it
  -- lie in the buffer: luma ends before chroma, chroma before the end; a format without planes is
  -- refused. Width and height are even and at most 16000, the aligned ones at most 16384, and the
  -- Venus layout has the room that msm_media_info.h reserves.
  pub planes_in_buffer :
      (sw_mask : ℕ) (format : Format) (usage : ℕ)
      → p.is_packed format ≡ false
      → VenusRoom p width height
      → (get_buffer_attributes p sw_mask width height format usage).aligned_w ≤ max_dim
      → (get_buffer_attributes p sw_mask width height format usage).aligned_h ≤ max_dim
      → let a = get_buffer_attributes p sw_mask width height format usage in
        Placed format a.aligned_h a.size (get_yuv_plane_info p format a.aligned_w a.aligned_h none)
  unfolding get_buffer_attributes get_yuv_plane_info
  planes_in_buffer sw_mask format usage plain v a b =
      let tile = is_macro_tile_enabled p sw_mask format usage in
      subst
        (λ (q : ℕ × ℕ).
          q.0 ≤ max_dim
          → q.1 ≤ max_dim
          → Placed format q.1 (get_size p format width height q.0 q.1) (plane_info format q.0 q.1))
        (sym (plain_dimensions format tile plain)) (planes_of format v) a b
