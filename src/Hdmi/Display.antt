-- ===== src/Hdmi/Display.antt =====
-- HDMIDisplay (hdmi.cpp): connecting and disconnecting a display, its attributes, and the
-- resolution that is scaled down to it; getAspectRatioPosition of libqdutils/qd_utils.cpp.
-- The products of ints are taken not to overflow, and the float product in setAttributes to be
-- exact, as they are for sizes of displays.
use android_device_casio_dtx.Base.{
  ℕ, ◌+◌, ◌-◌, ◌*◌, ◌/◌, ◌%◌, Bool, true, false, not, ◌&&◌, ◌||◌, Option, none, some, List, [], ◌∷◌,
  ◌++◌, ltb, leb, ◌==◌, if◌then◌else◌, u32_mod, get_elem?,
}
use android_device_casio_dtx.Utils.{aligndown}
use android_device_casio_dtx.Hdmi.{Formats, EdidData, no_mode, edid_data, find_entry, choose_mode}
use android_device_casio_dtx.Hdmi.Parse.{
  Strtol, Parsed, done, past_end, out_of_fuel, read_resolution,
}

-- `none` for the descriptor is -1; mModeCount is the number of `edid_modes`.
pub record HdmiDisplay : Type 0 where
  pub fd : Option ℕ
  pub current_mode : ℕ
  pub edid_modes : List ℕ
  pub xres : ℕ
  pub yres : ℕ
  pub vsync_period : ℕ
  pub primary_width : ℕ
  pub primary_height : ℕ
  pub mdp_scaling_mode : Bool
  pub underscan_supported : Bool
  pub mdp_downscale_enabled : Bool

-- What the chip, the overlay and the C library answer.
pub record Platform : Type 0 where
  pub ui_scaling_on_external : Bool
  pub src_split : Bool
  pub max_mdp_downscale : ℕ
  pub strtol : Strtol
  pub atoi : List ℕ → ℕ
  pub isspace : ℕ → Bool

-- What configure reads: the descriptor that open answers, the files, and the properties.
pub record Connection : Type 0 where
  pub opened : Option ℕ
  pub scan_info : Option (List ℕ)
  pub edid_modes_file : Option (List ℕ)
  pub resolution_property : ℕ
  pub downscale_property : Bool

unfoldable pub open_frame_buffer : Option ℕ → HdmiDisplay → HdmiDisplay
open_frame_buffer opened d = elim d.fd [ none ↦ record d { fd = opened } | some fd ↦ d ]

unfoldable pub is_open : HdmiDisplay → Bool
is_open d = elim d.fd [ none ↦ false | some fd ↦ ltb 0 fd ]

abbrev scan_delimiter : ℕ → Bool
scan_delimiter c = c == 44 || c == 32 || c == 10

abbrev emit : List ℕ → List (List ℕ) → List (List ℕ)
emit [] words = words
emit (c ∷ word) words = (c ∷ word) ∷ words

-- The words that strtok_r hands out; `word` is the one that has begun.
unfoldable pub tokens : List ℕ → List ℕ → List (List ℕ)
tokens word [] = emit word []
tokens word (c ∷ text) =
    let ended = tokens [] text in
    let longer = tokens (word ++ c ∷ []) text in
    if scan_delimiter c then emit word ended else longer

-- The third field of scan_info says whether the display underscans.
unfoldable pub read_ce_underscan_info : Platform → Option (List ℕ) → HdmiDisplay → HdmiDisplay
unfolding tokens
read_ce_underscan_info p scan_info d = elim scan_info [
  | none ↦ d
  | some text ↦ elim (get_elem? (tokens [] text) 2) [
    | none ↦ d
    | some field ↦
        if p.atoi field == 2 || p.atoi field == 3
        then record d { underscan_supported = true }
        else d
  ]
]

-- Width, height and frame rate; they stay where the mode is not in the table.
abbrev pub attr_of : Option EdidData → ℕ → ℕ → ℕ → ℕ × ℕ × ℕ
attr_of none width height fps = (width, height, fps)
attr_of (some e) width height fps = (e.width, e.height, e.fps)

unfoldable pub get_attr_for_mode : Formats → ℕ → ℕ → ℕ → ℕ → ℕ × ℕ × ℕ
unfolding find_entry edid_data
get_attr_for_mode f mode width height fps = attr_of (find_entry (edid_data f) mode) width height fps

-- The size that the source has when it fills the destination in its own proportions.
unfoldable pub aspect_size : ℕ → ℕ → ℕ → ℕ → ℕ × ℕ
aspect_size dest_width dest_height src_width src_height =
    if ltb (dest_width * src_height) (src_width * dest_height)
    then (dest_width, dest_width * src_height / src_width)
    else if ltb (src_width * dest_height) (dest_width * src_height)
    then (dest_height * src_width / src_height, dest_height)
    else (dest_width, dest_height)

unfoldable pub get_aspect_ratio_position : ℕ → ℕ → ℕ → ℕ → ℕ × ℕ × ℕ × ℕ
unfolding aspect_size
get_aspect_ratio_position dest_width dest_height src_width src_height =
    let size = aspect_size dest_width dest_height src_width src_height in
    let w = if ltb dest_width size.0 then dest_width else size.0 in
    let h = if ltb dest_height size.1 then dest_height else size.1 in
    let x = (dest_width - w) / 2 in let y = (dest_height - h) / 2 in (x, y, w + x, h + y)

-- The resolution in place of the display's own, `x` by `y`; the primary is taken in landscape.
unfoldable pub scaled_resolution : ℕ → ℕ → ℕ → ℕ → ℕ → ℕ × ℕ
unfolding get_aspect_ratio_position aligndown
scaled_resolution max_downscale primary_width primary_height x y =
    let turned = ltb primary_width primary_height in
    let tmp_w = if turned then primary_height else primary_width in
    let tmp_h = if turned then primary_width else primary_height in
    let r = get_aspect_ratio_position tmp_w tmp_h x y in
    let new_w = r.2 - r.0 in
    let new_h = r.3 - r.1 in
    let over = ltb (x * y * max_downscale % u32_mod) (new_w * new_h % u32_mod) in
    let w = if over then x * max_downscale / 2 else new_w in
    let h = if over then y * max_downscale / 2 else new_h in (aligndown w 4, aligndown h 4)

abbrev pub supported_downscale_area : ℕ
supported_downscale_area = 1920 * 1080

unfoldable pub scales : Platform → HdmiDisplay → ℕ → ℕ → Bool
scales p d x y =
    let primary_area = d.primary_width * d.primary_height % u32_mod in
    p.ui_scaling_on_external
    && d.mdp_downscale_enabled
    && ltb (x * y % u32_mod) primary_area
    && (leb primary_area supported_downscale_area || p.src_split)

-- What setAttributes does with the attributes of the mode. `none`: the period is divided by a
-- frame rate of 0.
unfoldable pub apply_attributes : Platform → HdmiDisplay → ℕ × ℕ × ℕ → Option HdmiDisplay
unfolding scales scaled_resolution
apply_attributes p d (x, y, fps) =
    let scaled = scaled_resolution p.max_mdp_downscale d.primary_width d.primary_height x y in
    let up = scales p d x y in
    if fps == 0
    then none
    else some (record d {
      xres = if up then scaled.0 else x;
      yres = if up then scaled.1 else y;
      mdp_scaling_mode = up;
      vsync_period = 1000000000 / fps;
    })

unfoldable pub set_attributes : Formats → Platform → HdmiDisplay → Option HdmiDisplay
unfolding get_attr_for_mode apply_attributes
set_attributes f p d = apply_attributes p d (get_attr_for_mode f d.current_mode d.xres d.yres 0)

abbrev pub modes_after : Option Parsed → List ℕ → Option (List ℕ)
modes_after none before = some before
modes_after (some (done modes)) before = some modes
modes_after (some past_end) before = none
modes_after (some out_of_fuel) before = none

abbrev pub finished : Bool → Option HdmiDisplay → Option (HdmiDisplay × Bool)
finished downscale none = none
finished downscale (some d) = some (record d { mdp_downscale_enabled = downscale }, true)

-- The rest of configure, from the modes on. The downscale feature is read after the attributes were
-- set.
unfoldable pub set_mode :
    Formats → Platform → Connection → HdmiDisplay → Option (List ℕ) → Option (HdmiDisplay × Bool)
unfolding choose_mode set_attributes
set_mode f p c d none = none
set_mode f p c d (some modes) = finished c.downscale_property (
    set_attributes f p
      (record d { edid_modes = modes; current_mode = choose_mode f modes c.resolution_property }))

-- The state and whether 0 was returned. `none`: a write past mEDIDModes, or a division by 0.
unfoldable pub configure :
    Formats → Platform → Connection → HdmiDisplay → Option (HdmiDisplay × Bool)
unfolding open_frame_buffer is_open read_ce_underscan_info read_resolution set_mode
configure f p c d =
    let opened = open_frame_buffer c.opened d in
    let modes = modes_after (read_resolution p.strtol p.isspace c.edid_modes_file) d.edid_modes in
    if not (is_open opened)
    then some (opened, false)
    else set_mode f p c (read_ce_underscan_info p c.scan_info opened) modes

-- closeFrameBuffer and resetInfo.
unfoldable pub teardown : HdmiDisplay → HdmiDisplay
teardown d = record d {
  fd = none;
  edid_modes = [];
  current_mode = no_mode;
  underscan_supported = false;
  xres = 0;
  yres = 0;
  vsync_period = 0;
  mdp_scaling_mode = false;
}
