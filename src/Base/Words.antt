-- ===== src/Base/Words.antt =====
-- Machine words as native numbers. A flag word is read bit by bit, by division, which `omega`
-- understands at a numeral; an array or a bitmap is a function of its index.
use Prim.Native.Nat.{ℕ, ◌+◌, ◌-◌, ◌/◌, ◌%◌, ◌^◌}
use mathlib.Core.Bool.{Bool}
use android_device_casio_dtx.Base.Tests.{◌==◌, if◌then◌else◌}

abbrev pub u32_mod : ℕ
u32_mod = 4294967296

-- x & (1 << k), as a condition.
abbrev pub has_bit : ℕ → ℕ → Bool
has_bit k x = x / 2 ^ k % 2 == 1

-- x | (1 << k).
abbrev pub set_bit : ℕ → ℕ → ℕ
set_bit k x = if has_bit k x then x else x + 2 ^ k

-- x & ~(1 << k).
abbrev pub clear_bit : ℕ → ℕ → ℕ
clear_bit k x = if has_bit k x then x - 2 ^ k else x

-- uint32_t a - b.
abbrev pub sub32 : ℕ → ℕ → ℕ
sub32 a b = (a + u32_mod - b) % u32_mod

-- uint32_t a + b.
abbrev pub add32 : ℕ → ℕ → ℕ
add32 a b = (a + b) % u32_mod

-- An array element written.
abbrev pub update {ℓ} : {A : Type ℓ} → (ℕ → A) → ℕ → A → ℕ → A
update f i v j = if i == j then v else f j
