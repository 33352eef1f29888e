-- ===== src/Utils/Crop.antt =====
-- Crop rounding and the crop of a turned source (overlayUtils.cpp).
use android_device_casio_dtx.Base.{ℕ, ◌+◌, ◌%◌, ◌≤◌, ◌<◌, ◌≡◌, false, has_bit, u32_mod, arith}
use android_device_casio_dtx.Utils.{
  Dim, Whf, normalize_crop, pre_rotate_source, pre_rotate_flip_h, pre_rotate_flip_v,
  pre_rotate_turn,
}

-- A crop that lies in its source, whose extent does not wrap.
pub record Within (whf : Whf) (c : Dim) : Type 0 where
  pub right : c.x + c.w ≤ whf.w
  pub bottom : c.y + c.h ≤ whf.h
  pub width : whf.w < u32_mod
  pub height : whf.h < u32_mod

-- On one axis the rounded start and extent are even, the new interval lies in the old one, and at
-- most two pixels are lost; the interval does not wrap, and an odd start has an extent of at least 2.
pub normalize_crop-even :
    (xy wh : ℕ)
    → xy + wh < u32_mod
    → (xy % 2 ≡ 1 → 2 ≤ wh)
    → let r = normalize_crop xy wh in
      (r.0 % 2 ≡ 0) × (r.1 % 2 ≡ 0) × (xy ≤ r.0) × (r.0 + r.1 ≤ xy + wh) × (wh ≤ r.1 + 2)
unfolding normalize_crop
normalize_crop-even xy wh h k = ground arith

flip_h-Within :
    (tr : ℕ) (whf : Whf) (c : Dim) → Within whf c → Within whf (pre_rotate_flip_h tr whf c)
unfolding pre_rotate_flip_h
flip_h-Within tr whf c v = ground arith

flip_v-Within :
    (tr : ℕ) (whf : Whf) (c : Dim) → Within whf c → Within whf (pre_rotate_flip_v tr whf c)
unfolding pre_rotate_flip_v
flip_v-Within tr whf c v = ground arith

turn-Within :
    (tr : ℕ) (whf : Whf) (c : Dim)
    → Within whf c
    → let r = pre_rotate_turn tr whf c in Within r.0 r.1
unfolding pre_rotate_turn
turn-Within tr whf c v = ground arith

-- A crop inside its source is sent to a crop inside the turned source, for every orientation.
pub pre_rotate_source-Within :
    (tr : ℕ) (whf : Whf) (c : Dim)
    → Within whf c
    → let r = pre_rotate_source tr whf c in Within r.0 r.1
unfolding pre_rotate_source
pre_rotate_source-Within tr whf c v =
    turn-Within tr whf _ (flip_v-Within tr whf _ (flip_h-Within tr whf c v))

-- Without the turn, the orientation undoes itself on a crop inside its source.
pub pre_rotate_source_twice :
    (tr : ℕ) (whf : Whf) (c : Dim)
    → has_bit 2 tr ≡ false
    → Within whf c
    → pre_rotate_source tr whf (pre_rotate_source tr whf c).1 ≡ (whf, c)
unfolding pre_rotate_source
pre_rotate_source_twice tr whf c e v = ground arith

abbrev pub turn : Whf × Dim → Whf × Dim
turn (whf, c) = pre_rotate_source 4 whf c

-- Four quarter turns give the source and a crop inside it back.
pub pre_rotate_source_four_turns :
    (whf : Whf) (c : Dim) → Within whf c → turn (turn (turn (turn (whf, c)))) ≡ (whf, c)
unfolding pre_rotate_source
pre_rotate_source_four_turns whf c v = ground arith
