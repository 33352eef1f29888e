-- ===== src/Rotator/Reduce.antt =====
-- The loop that halves the factor of the MDSS rotator (overlayMdssRot.cpp), and what is left of an
-- extent.
use android_device_casio_dtx.Base.{
  ℕ, zero, suc, ◌+◌, ◌-◌, ◌*◌, ◌/◌, ◌%◌, ◌^◌, ◌≤◌, ◌<◌, ◌≡◌, ◌⊎◌, inl, inr, refl, sym, ap, subst,
  ◌&&◌, ◌||◌, ltb, arith, branch, u32_mod,
}
use android_device_casio_dtx.Base.Masks.{bit_and_mask, pow_pos}
use native.Mathlib.Nat.{mul_comm, pow-suc}
use android_device_casio_dtx.Utils.{Dim, aligndown}
use android_device_casio_dtx.Rotator.Scale.{get_downscale_adjusted_crop, reduce}
use android_device_casio_dtx.Rotator.Mdss.{scaled}

-- A statement about 2, 4, 8, 16 and 32.
each_factor {ℓ} : (P : ℕ → Type ℓ) → P 2 → P 4 → P 8 → P 16 → P 32 → (m : ℕ) → m ≤ 4 → P (2 * 2 ^ m)
each_factor P a b c d e zero h = a
each_factor P a b c d e (suc zero) h = b
each_factor P a b c d e (suc (suc zero)) h = c
each_factor P a b c d e (suc (suc (suc zero))) h = d
each_factor P a b c d e (suc (suc (suc (suc zero)))) h = e
each_factor P a b c d e (suc (suc (suc (suc (suc m))))) h = absurd (omega arith)

-- An extent rounded down to twice the factor.
abbrev pub rounded : ℕ → ℕ → ℕ
rounded f w = w - w % (2 * f)

pub aligndown_factor :
    (w m : ℕ) → m ≤ 4 → aligndown w (2 * 2 ^ m * 2 % u32_mod) ≡ rounded (2 * 2 ^ m) w
unfolding aligndown
aligndown_factor w =
    each_factor (λ f. aligndown w (f * 2 % u32_mod) ≡ rounded f w)
      (ap (λ r. w - r) (bit_and_mask 2 w)) (ap (λ r. w - r) (bit_and_mask 3 w))
      (ap (λ r. w - r) (bit_and_mask 4 w)) (ap (λ r. w - r) (bit_and_mask 5 w))
      (ap (λ r. w - r) (bit_and_mask 6 w))

-- The crop loses nothing where it is rounded.
abbrev pub Whole : ℕ → Dim → Type 0
Whole f crop = (crop.w ≤ rounded f crop.w) × (crop.h ≤ rounded f crop.h)

-- The factor that the loop ends with.
pub record Reduced (n : ℕ) (crop : Dim) (f : ℕ) : Type 0 where
  pub level : ℕ
  pub bound : level ≤ n
  pub power : f ≡ 2 * 2 ^ level
  pub whole : (level ≡ 0) ⊎ Whole f crop

halve : (n : ℕ) → 2 * 2 ^ suc n / 2 ≡ 2 * 2 ^ n
halve n = omega (arith, pow-suc 2 n, mul_comm (2 ^ n) 2)

pub reduce-Reduced :
    (n fuel : ℕ) (crop : Dim) → n ≤ fuel → n ≤ 4 → Reduced n crop (reduce fuel crop (2 * 2 ^ n))
unfolding reduce get_downscale_adjusted_crop
reduce-Reduced zero zero crop h k = record {
  level = 0;
  bound = omega arith;
  power = refl;
  whole = inl refl;
}
reduce-Reduced zero (suc fuel) crop h k = record {
  level = 0;
  bound = omega arith;
  power = refl;
  whole = inl refl;
}
reduce-Reduced (suc n) zero crop h k = absurd (omega arith)
reduce-Reduced (suc n) (suc fuel) crop h k =
    let f = 2 * 2 ^ suc n in
    let a = aligndown crop.w (f * 2 % u32_mod) in
    let b = aligndown crop.h (f * 2 % u32_mod) in
    let big : 2 < f = omega (arith, pow-suc 2 n, pow_pos n) in
    let down = reduce-Reduced n fuel crop (omega arith) (omega arith) in
    branch (ltb 2 f && (ltb a crop.w || ltb b crop.h)) (Reduced (suc n) crop)
      (reduce fuel crop (f / 2)) f
      (λ lost.
        subst (λ g. Reduced (suc n) crop (reduce fuel crop g)) (sym (halve n))
          record {
            level = down.level;
            bound = omega (arith, down.bound);
            power = down.power;
            whole = down.whole;
          })
      λ kept. record {
        level = suc n;
        bound = omega arith;
        power = refl;
        whole = inr (
          ground (arith, big, aligndown_factor (crop.w) (suc n) k),
          ground (arith, big, aligndown_factor (crop.h) (suc n) k),
        );
      }

-- From an extent of a source to an extent of at least `dst`, by the factor `f`, of which `a` is used: all
-- but three lines or columns, in exact steps of the factor, and an even number of steps.
pub record Scales (f dst src a : ℕ) : Type 0 where
  pub enough : dst * f ≤ src
  pub inside : a ≤ src
  pub lost : src ≤ a + 3
  pub some_left : 0 < a
  pub exact : scaled f a * f ≡ a
  pub even : scaled f a % 2 ≡ 0

module _ (src adjusted dst : ℕ) where
  lost_at_most :
      (m : ℕ)
      → (src ≡ adjusted) ⊎ ((src ≤ adjusted + 1) × (adjusted % 2 ≡ 0))
      → (m ≡ 0) ⊎ (adjusted ≤ rounded (2 * 2 ^ m) adjusted)
      → src ≤ rounded (2 * 2 ^ m) adjusted + 3
  lost_at_most m (inl e) (inl z) =
      let e' = ap (λ k. rounded (2 * 2 ^ k) adjusted) z in omega (arith, e')
  lost_at_most m (inl e) (inr w) = omega (arith, w)
  lost_at_most m (inr n) (inl z) =
      let e' = ap (λ k. rounded (2 * 2 ^ k) adjusted) z in omega (arith, e', n)
  lost_at_most m (inr n) (inr w) = omega (arith, w, n)

  pub Scales-rounded :
      (m : ℕ)
      → m ≤ 4
      → dst * (2 * 2 ^ m) ≤ adjusted
      → adjusted ≤ src
      → (src ≡ adjusted) ⊎ ((src ≤ adjusted + 1) × (adjusted % 2 ≡ 0))
      → (m ≡ 0) ⊎ (adjusted ≤ rounded (2 * 2 ^ m) adjusted)
      → 0 < rounded (2 * 2 ^ m) adjusted
      → Scales (2 * 2 ^ m) dst src (rounded (2 * 2 ^ m) adjusted)
  unfolding scaled
  Scales-rounded m h enough in_src near whole pos = record {
    enough = omega (arith, enough, in_src);
    inside = omega (arith, in_src);
    lost = lost_at_most m near whole;
    some_left = pos;
    exact =
        each_factor (λ g. scaled g (rounded g adjusted) * g ≡ rounded g adjusted) (omega arith)
          (omega arith) (omega arith) (omega arith) (omega arith) m h;
    even =
        each_factor (λ g. scaled g (rounded g adjusted) % 2 ≡ 0) (omega arith) (omega arith)
          (omega arith) (omega arith) (omega arith) m h;
  }
