-- ===== src/Utils.antt =====
-- liboverlay/overlayUtils.h and overlayUtils.cpp: dimensions, crop rounding, orientations.
-- A `uint32_t` is a native number below 2 ^ 32, and its arithmetic wraps.
pub mod Crop
pub mod Orient
use Prim.Native.Nat.{bit_and}
use android_device_casio_dtx.Base.{
  ℕ, ◌+◌, ◌-◌, ◌*◌, ◌/◌, ◌%◌, Bool, true, false, ◌&&◌, ◌||◌, not, has_bit, set_bit, sub32, add32,
  ltb, ◌==◌, if◌then◌else◌,
}

pub record Dim : Type 0 where
  pub x : ℕ
  pub y : ℕ
  pub w : ℕ
  pub h : ℕ

pub record Whf : Type 0 where
  pub w : ℕ
  pub h : ℕ
  pub format : ℕ

-- An `eTransform`: bit 0 flips horizontally, bit 1 vertically, bit 2 turns by 90 degrees.
abbrev pub flip_h : ℕ → Bool
flip_h = has_bit 0

abbrev pub flip_v : ℕ → Bool
flip_v = has_bit 1

abbrev pub rot_90 : ℕ → Bool
rot_90 = has_bit 2

unfoldable pub even_ceil : ℕ → ℕ
even_ceil value = if has_bit 0 value then add32 value 1 else value

unfoldable pub even_floor : ℕ → ℕ
even_floor value = if has_bit 0 value then sub32 value 1 else value

-- The two references `xy` and `wh` are returned as a pair.
unfoldable pub normalize_crop : ℕ → ℕ → ℕ × ℕ
unfolding even_ceil even_floor
normalize_crop xy wh =
    if has_bit 0 xy
    then (even_ceil xy, if has_bit 0 wh then even_floor wh else sub32 wh 2)
    else (xy, even_floor wh)

-- `value & ~(a - 1)`, where `x & ~m` is `x - (x & m)`, on values that are not negative.
unfoldable pub aligndown : ℕ → ℕ → ℕ
aligndown value a = if a == 0 then value else value - bit_and value (a - 1)

unfoldable pub align : ℕ → ℕ → ℕ
align value a = if a == 0 then value else value + (a - 1) - bit_and (value + (a - 1)) (a - 1)

-- x - (y + z) on `uint32_t`.
unfoldable pub compute : ℕ → ℕ → ℕ → ℕ
compute x y z = sub32 x (add32 y z)

-- The crop seen from the source turned and flipped: first the flips, then the turn.
unfoldable pub pre_rotate_flip_h : ℕ → Whf → Dim → Dim
unfolding compute
pre_rotate_flip_h tr whf c = if flip_h tr then record c { x = compute whf.w c.x c.w } else c

unfoldable pub pre_rotate_flip_v : ℕ → Whf → Dim → Dim
unfolding compute
pre_rotate_flip_v tr whf c = if flip_v tr then record c { y = compute whf.h c.y c.h } else c

unfoldable pub pre_rotate_turn : ℕ → Whf → Dim → Whf × Dim
unfolding compute
pre_rotate_turn tr whf c =
    if rot_90 tr
    then (
      record whf { w = whf.h; h = whf.w },
      record { x = compute whf.h c.y c.h; y = c.x; w = c.h; h = c.w },
    )
    else (whf, c)

unfoldable pub pre_rotate_source : ℕ → Whf → Dim → Whf × Dim
unfolding pre_rotate_flip_h pre_rotate_flip_v pre_rotate_turn
pre_rotate_source tr whf c =
    pre_rotate_turn tr whf (pre_rotate_flip_v tr whf (pre_rotate_flip_h tr whf c))

-- The bits of MDP_FLIP_LR, MDP_FLIP_UD and MDP_ROT_90, which the kernel's msm_mdp.h defines.
pub record MdpBits : Type 0 where
  pub flip_lr : ℕ
  pub flip_ud : ℕ
  pub rot_90 : ℕ

-- The layout that `eTransform` has too: `MdpCtrl` stores the one word in the other.
abbrev pub hal_bits : MdpBits
hal_bits = record { flip_lr = 0; flip_ud = 1; rot_90 = 2 }

unfoldable pub get_mdp_orient : MdpBits → Bool → ℕ → ℕ
get_mdp_orient m a_family rotation =
    let trans90 = has_bit 2 rotation in
    let r0 = if trans90 then set_bit m.rot_90 0 else 0 in
    let r1 =
      if has_bit 0 rotation
      then set_bit (if trans90 && a_family then m.flip_ud else m.flip_lr) r0
      else r0 in
    if has_bit 1 rotation
    then set_bit (if trans90 && a_family then m.flip_lr else m.flip_ud) r1
    else r1
