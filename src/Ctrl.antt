-- ===== src/Ctrl.antt =====
-- liboverlay/overlayMdp.h and overlayMdp.cpp: `MdpCtrl`, which gathers the parameters of one
-- hardware pipe in an `mdp_overlay`, and `MdpData`, which plays buffers on it. The wrapper class
-- `Ctrl` of overlayCtrlData.h only forwards calls.
-- An int that the driver writes is held as its `uint32_t` pattern.
pub mod Laws
pub mod Examples
use android_device_casio_dtx.Base.{
  ℕ, ◌+◌, ◌-◌, ◌*◌, ◌/◌, ◌%◌, ◌^◌, Bool, true, false, ◌&&◌, ◌||◌, not, has_bit, set_bit, sub32, ltb,
  leb, ◌==◌, if◌then◌else◌, u32_mod, List, [], ◌∷◌,
}
use android_device_casio_dtx.Utils.{
  Dim, Whf, MdpBits, normalize_crop, even_floor, aligndown, pre_rotate_source, get_mdp_orient,
}

-- What the code reads of `MDPVersion` and of the kernel's msm_mdp.h.
pub record Hardware : Type 0 where
  pub mdp_version : ℕ
  pub is8x74v2 : Bool
  pub is8x26 : Bool
  pub supports_decimation : Bool
  pub max_mixer_width : ℕ
  pub bits : MdpBits
  -- Bit of MDP_SOURCE_ROTATED_90 and of MDP_DEINTERLACE in a flag word.
  pub source_rotated_90 : ℕ
  pub deinterlace : ℕ
  -- The floating point part of getDecimationFactor, for a source and a target extent.
  pub log2_downscale : ℕ → ℕ → ℕ
  -- `isYuv`, over the formats of msm_mdp.h.
  pub is_yuv : ℕ → Bool

abbrev pub mdss_v5 : ℕ
mdss_v5 = 500

-- -1 as a `uint32_t`.
abbrev pub new_request : ℕ
new_request = 4294967295

pub data Blending : Type 0 where
  undefined opaque premult coverage : Blending

pub data BlendOp : Type 0 where
  not_defined opaque_op premultiplied coverage_op : BlendOp

pub data PipeType : Type 0 where
  rgb vg dma any : PipeType

-- PIPE_TYPE_* of the driver.
pub data DriverPipeType : Type 0 where
  auto vig rgb_type dma_type : DriverPipeType

pub record PipeArgs : Type 0 where
  pub mdp_flags : ℕ
  pub whf : Whf
  pub zorder : ℕ
  pub plane_alpha : ℕ
  pub blending : Blending

-- The fields of `mdp_overlay` that the code uses.
pub record MdpOverlay : Type 0 where
  pub id : ℕ
  pub src : Whf
  pub src_rect : Dim
  pub dst_rect : Dim
  pub z_order : ℕ
  pub flags : ℕ
  pub alpha : ℕ
  pub blend_op : BlendOp
  pub transp_mask : ℕ
  pub bg_color : ℕ
  pub pipe_type : DriverPipeType
  pub user_data : ℕ
  pub priority : ℕ
  pub horz_deci : ℕ
  pub vert_deci : ℕ

pub record MdpCtrl : Type 0 where
  pub orientation : ℕ
  pub ov_info : MdpOverlay
  pub dpy : ℕ

abbrev no_dim : Dim
no_dim = record { x = 0; y = 0; w = 0; h = 0 }

-- reset, then the display that `init` stores.
unfoldable pub create : ℕ → MdpCtrl
create dpy = record {
  orientation = 0;
  ov_info = record {
    id = new_request;
    src = record { w = 0; h = 0; format = 0 };
    src_rect = no_dim;
    dst_rect = no_dim;
    z_order = 0;
    flags = 0;
    alpha = 0;
    blend_op = not_defined;
    transp_mask = 0;
    bg_color = 0;
    pipe_type = auto;
    user_data = 0;
    priority = 0;
    horz_deci = 0;
    vert_deci = 0;
  };
  dpy = dpy;
}

-- The overlay ids that `close` hands to unsetOverlay.
unfoldable pub close : MdpCtrl → List ℕ
close c = if c.ov_info.id == new_request then [] else c.ov_info.id ∷ []

unfoldable pub set_blending : Blending → BlendOp
set_blending opaque = opaque_op
set_blending premult = premultiplied
set_blending _ = coverage_op

unfoldable pub set_source : PipeArgs → MdpCtrl → MdpCtrl
unfolding set_blending
set_source args c = record c {
  ov_info = record (c.ov_info) {
    src = args.whf;
    transp_mask = 4294967295;
    flags = args.mdp_flags;
    z_order = args.zorder;
    alpha = args.plane_alpha;
    blend_op = set_blending args.blending;
  };
}

unfoldable pub set_crop : Dim → MdpCtrl → MdpCtrl
set_crop d c = record c { ov_info = record (c.ov_info) { src_rect = d } }

unfoldable pub set_color : ℕ → MdpCtrl → MdpCtrl
set_color color c = record c { ov_info = record (c.ov_info) { bg_color = color } }

unfoldable pub set_position : Dim → MdpCtrl → MdpCtrl
set_position d c = record c { ov_info = record (c.ov_info) { dst_rect = d } }

unfoldable pub set_transform : Hardware → ℕ → MdpCtrl → MdpCtrl
set_transform hw orient c =
    let rot = get_mdp_orient hw.bits (ltb hw.mdp_version mdss_v5) orient in
    record c { ov_info = record (c.ov_info) { user_data = rot }; orientation = rot }

unfoldable pub driver_type : PipeType → DriverPipeType
driver_type rgb = rgb_type
driver_type vg = vig
driver_type dma = dma_type
driver_type any = auto

unfoldable pub set_pipe_type : PipeType → MdpCtrl → MdpCtrl
unfolding driver_type
set_pipe_type t c = record c { ov_info = record (c.ov_info) { pipe_type = driver_type t } }

-- setRotationFlags, then preRotateSource on the source and its crop.
unfoldable pub do_transform : Hardware → MdpCtrl → MdpCtrl
do_transform hw c =
    let info = c.ov_info in
    let flags =
      if has_bit hw.bits.rot_90 info.user_data
      then set_bit hw.source_rotated_90 info.flags
      else info.flags in
    let (whf, dim) = pre_rotate_source c.orientation info.src info.src_rect in
    record c { ov_info = record info { flags = flags; src = whf; src_rect = dim } }

-- getDecimationFactor: horizontal, then vertical.
unfoldable pub get_decimation_factor : Hardware → ℕ → ℕ → ℕ → ℕ → ℕ × ℕ
get_decimation_factor hw src_w src_h dst_w dst_h =
    let horz = hw.log2_downscale src_w dst_w in
    (if ltb hw.max_mixer_width src_w && ltb horz 2 then 2 else horz, hw.log2_downscale src_h dst_h)

unfoldable pub do_downscale : Hardware → MdpCtrl → MdpCtrl
unfolding get_decimation_factor
do_downscale hw c =
    let info = c.ov_info in
    let (horz, vert) =
      get_decimation_factor hw info.src_rect.w info.src_rect.h info.dst_rect.w info.dst_rect.h in
    if hw.supports_decimation
    then record c { ov_info = record info { horz_deci = horz; vert_deci = vert } }
    else c

-- The crop of a video source: even, and a multiple of 4 lines where it is interlaced.
unfoldable pub adjust_yuv : Hardware → MdpOverlay → MdpOverlay
adjust_yuv hw o =
    let (x, w) = normalize_crop o.src_rect.x o.src_rect.w in
    let (y, h) = normalize_crop o.src_rect.y o.src_rect.h in
    let src = record (o.src_rect) { x = x; y = y; w = w; h = h } in
    let turned = has_bit hw.source_rotated_90 o.flags in
    if ltb hw.mdp_version mdss_v5
    then record o {
      src_rect = src;
      dst_rect = record (o.dst_rect) { w = even_floor o.dst_rect.w; h = even_floor o.dst_rect.h };
    }
    else if has_bit hw.deinterlace o.flags
    then if not turned && not (h % 4 == 0)
      then record o { src_rect = record src { h = aligndown h 4 } }
      else if turned && not (w % 4 == 0)
      then record o { src_rect = record src { w = aligndown w 4 } }
      else record o { src_rect = src }
    else record o { src_rect = src }

-- The chips that cannot scale down by one pixel.
unfoldable pub adjust_rgb : Hardware → MdpOverlay → MdpOverlay
adjust_rgb hw o =
    let src = o.src_rect in
    let w = if sub32 src.w o.dst_rect.w == 1 then sub32 src.w 1 else src.w in
    let h = if sub32 src.h o.dst_rect.h == 1 then sub32 src.h 1 else src.h in
    if leb mdss_v5 hw.mdp_version && (hw.is8x74v2 || hw.is8x26)
    then record o { src_rect = record src { w = w; h = h } }
    else o

-- MdpCtrl::set, which always succeeds: the driver is called by `validateAndSet`.
unfoldable pub set : Hardware → MdpCtrl → MdpCtrl × Bool
set hw c =
    let t = do_transform hw c in
    let info =
      if hw.is_yuv t.ov_info.src.format then adjust_yuv hw t.ov_info else adjust_rgb hw t.ov_info in
    (do_downscale hw (record t { ov_info = info }), true)

unfoldable pub update_src_format : ℕ → MdpCtrl → MdpCtrl
update_src_format fmt c =
    let info = c.ov_info in
    record c { ov_info = record info { src = record (info.src) { format = fmt } } }

-- MdpData: the id of the pipe, and the last buffer handed to the driver.
pub record MdpData : Type 0 where
  pub id : ℕ
  pub memory_id : ℕ
  pub offset : ℕ

unfoldable pub create_data : MdpData
create_data = record { id = 0; memory_id = new_request; offset = 0 }

-- play: `ok` is the result of the ioctl.
unfoldable pub play : Bool → ℕ → ℕ → MdpData → MdpData × Bool
play ok fd offset d = (record d { memory_id = fd; offset = offset }, ok)
