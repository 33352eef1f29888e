-- ===== src/Base/Masks.antt =====
-- `&` with a mask of low ones is a remainder. The libraries have no such law.
use Prim.Native.Nat.{
  ℕ, zero, suc, ◌+◌, ◌-◌, ◌*◌, ◌/◌, ◌%◌, ◌^◌, ◌≤◌, ◌<◌, min, bit_and, digits, bit_and-bitwise,
}
use mathlib.Core.Path.{◌≡◌, refl, sym, ap, ◌∙◌}
use native.Mathlib.Omega.{arith}
use native.Mathlib.Nat.{pow-suc, mul_comm, div-add-mod, mod-lt, mod-eq_of_lt, mul-add-mod_self_left}

abbrev conj : ℕ → ℕ → ℕ → ℕ
conj fuel a b = digits (λ b. zero) min fuel a b

-- Fuel beyond the first operand is not used.
conj_steady : (m n a b : ℕ) → a ≤ m → a ≤ n → conj m a b ≡ conj n a b
conj_steady zero zero a b h k = refl
conj_steady (suc m) zero zero b h k = refl
conj_steady (suc m) zero (suc a) b h k = absurd (omega arith)
conj_steady zero (suc n) zero b h k = refl
conj_steady zero (suc n) (suc a) b h k = absurd (omega arith)
conj_steady (suc m) (suc n) zero b h k = refl
conj_steady (suc m) (suc n) (suc a) b h k =
    omega (arith, conj_steady m n (suc a / 2) (b / 2) (omega arith) (omega arith))

bit_and_zero : (b : ℕ) → bit_and 0 b ≡ 0
bit_and_zero b = bit_and-bitwise 0 b

-- The lowest digit, and the rest.
pub bit_and_digit : (a b : ℕ) → bit_and a b ≡ min (a % 2) (b % 2) + 2 * bit_and (a / 2) (b / 2)
bit_and_digit zero b = omega (arith, bit_and_zero b, bit_and_zero (b / 2))
bit_and_digit (suc a) b = omega (
  arith,
  bit_and-bitwise (suc a) b,
  bit_and-bitwise (suc a / 2) (b / 2),
  conj_steady a (suc a / 2) (suc a / 2) (b / 2) (omega arith) (omega arith),
)

zero_mask : (n a : ℕ) → a ≤ n → bit_and a 0 ≡ 0
zero_mask n zero h = bit_and_zero 0
zero_mask zero (suc a) h = absurd (omega arith)
zero_mask (suc n) (suc a) h =
    omega (arith, bit_and_digit (suc a) 0, zero_mask n (suc a / 2) (omega arith))

-- One more low digit of a remainder.
double_mod : (a p : ℕ) → 0 < p → a % (2 * p) ≡ a % 2 + 2 * (a / 2 % p)
double_mod a p h =
    let s = a % 2 + 2 * (a / 2 % p) in
    let e : 2 * p * (a / 2 / p) + s ≡ a =
      omega (arith, ap (λ (t : ℕ). 2 * t) (div-add-mod (a / 2) p)) in
    let small : s < 2 * p = omega (arith, mod-lt (a / 2) h) in
    ap (λ t. t % (2 * p)) (sym e) ∙ mul-add-mod_self_left (2 * p) (a / 2 / p) s ∙ mod-eq_of_lt small

pub pow_pos : (k : ℕ) → 0 < 2 ^ k
pow_pos zero = omega arith
pow_pos (suc k) = rw (pow-suc 2 k) (omega (arith, pow_pos k))

-- x & (2 ^ k - 1) is x % 2 ^ k.
pub bit_and_mask : (k a : ℕ) → bit_and a (2 ^ k - 1) ≡ a % 2 ^ k
bit_and_mask zero a = omega (arith, zero_mask a a (omega arith))
bit_and_mask (suc k) a =
    let p = 2 ^ k in
    let e : 2 ^ suc k ≡ 2 * p = pow-suc 2 k ∙ mul_comm p 2 in
    let half : (2 * p - 1) / 2 ≡ p - 1 = omega (arith, pow_pos k) in
    rw e (
      omega (
        arith,
        bit_and_digit a (2 * p - 1),
        ap (bit_and (a / 2)) half,
        bit_and_mask k (a / 2),
        double_mod a p (pow_pos k),
        pow_pos k,
      ))
