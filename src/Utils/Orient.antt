-- ===== src/Utils/Orient.antt =====
-- The orientation word handed to the driver (getMdpOrient of overlayUtils.cpp).
use android_device_casio_dtx.Base.{
  ℕ, ◌<◌, ◌≡◌, refl, Bool, false, has_bit, arith, zero, suc, if◌then◌else◌, ◌&&◌,
}
use android_device_casio_dtx.Utils.{MdpBits, hal_bits, get_mdp_orient}

-- What the driver's word `r` says of the requested orientation.
abbrev pub Orients : Bool → ℕ → ℕ → Type 0
Orients a_family rotation r =
    let swap = has_bit 2 rotation && a_family in
    (r < 8)
    × (has_bit 2 r ≡ has_bit 2 rotation)
    × (has_bit 0 r ≡ (if swap then has_bit 1 rotation else has_bit 0 rotation))
    × (has_bit 1 r ≡ (if swap then has_bit 0 rotation else has_bit 1 rotation))

hal_orient :
    (a_family : Bool) (n : ℕ) → n < 8 → Orients a_family n (get_mdp_orient hal_bits a_family n)
unfolding get_mdp_orient
hal_orient false zero h = (omega arith, refl, refl, refl)
hal_orient _ (suc (suc (suc (suc (suc (suc (suc (suc n)))))))) h = absurd (omega arith)
hal_orient _ _ h = (omega arith, refl, refl, refl)

-- With the documented bits the driver's word is the requested orientation, except that a driver
-- before MDSS_V5, which turns first, gets the two flips swapped where the source is turned.
pub get_mdp_orient-Orients :
    (m : MdpBits) (a_family : Bool) (rotation : ℕ)
    → m ≡ hal_bits
    → rotation < 8
    → Orients a_family rotation (get_mdp_orient m a_family rotation)
get_mdp_orient-Orients m a_family rotation e h = rw e (hal_orient a_family rotation h)
