-- ===== src/Base/Counts.antt =====
-- What `count_index` counts.
use Prim.Native.Nat.{ℕ, zero, suc, ◌+◌, ◌-◌, ◌≤◌, ◌<◌}
use mathlib.Core.Path.{◌≡◌, refl, ap, ◌∙◌}
use mathlib.Core.Logic.{◌≢◌, inl, inr}
use mathlib.Core.Bool.{Bool, true, false}
use native.Mathlib.Omega.{arith}
use android_device_casio_dtx.Base.Tests.{if◌then◌else◌, Bool-cases, ◌==◌}
use android_device_casio_dtx.Base.Loops.{count_index}

-- Two tests that agree on the range are counted alike.
pub count_index-congr :
    (n from : ℕ) (t u : ℕ → Bool)
    → ((j : ℕ) → from ≤ j → j < from + n → t j ≡ u j)
    → count_index n from t ≡ count_index n from u
unfolding count_index
count_index-congr zero from t u h = refl
count_index-congr (suc n) from t u h =
    rw (h from (omega arith) (omega arith))
      (rw (count_index-congr n (from + 1) t u (λ j a b. h j (omega arith) (omega arith))))

-- Where two tests differ at one index only, the counts differ by one at most.
pub count_index_one :
    (n from d : ℕ) (t u : ℕ → Bool)
    → ((j : ℕ) → j ≢ d → t j ≡ u j)
    → count_index n from t ≤ count_index n from u + 1
unfolding count_index
count_index_one zero from d t u h = omega arith
count_index_one (suc n) from d t u h = elim (Bool-cases (from == d)) [
  | inl e ↦
      let same = count_index-congr n (from + 1) t u (λ j a b. h j (λ q. absurd (ground arith))) in
      ground (arith, same)
  | inr e ↦ ground (arith, h from (λ q. ground arith), count_index_one n (from + 1) d t u h)
]

-- Where one more index passes, the count is one more.
pub count_index_more :
    (n from d : ℕ) (t u : ℕ → Bool)
    → ((j : ℕ) → j ≢ d → t j ≡ u j)
    → from ≤ d
    → d < from + n
    → t d ≡ false
    → u d ≡ true
    → count_index n from u ≡ count_index n from t + 1
unfolding count_index
count_index_more zero from d t u h lo hi e e' = absurd (omega arith)
count_index_more (suc n) from d t u h lo hi e e' = elim (Bool-cases (from == d)) [
  | inl q ↦
      let same = count_index-congr n (from + 1) t u (λ j a b. h j (λ q'. absurd (ground arith))) in
      let p : from ≡ d = ground arith in
      let off : t from ≡ false = ap t p ∙ e in
      let on : u from ≡ true = ap u p ∙ e' in ground (arith, same, off, on)
  | inr q ↦
      let rest = count_index_more n (from + 1) d t u h (ground arith) (omega arith) e e' in
      ground (arith, h from (λ q'. ground arith), rest)
]

-- Three tests of which exactly one passes at each index count the range.
pub count_index_three :
    (n from : ℕ) (t u v : ℕ → Bool)
    → ((j : ℕ)
        → from ≤ j
        → j < from + n
        → ((if t j then 1 else 0) + (if u j then 1 else 0) + (if v j then 1 else 0)) ≡ 1)
    → count_index n from t + count_index n from u + count_index n from v ≡ n
unfolding count_index
count_index_three zero from t u v h = omega arith
count_index_three (suc n) from t u v h =
    let rest = count_index_three n (from + 1) t u v (λ j a b. h j (omega arith) (omega arith)) in
    omega (arith, rest, h from (omega arith) (omega arith))

pub count_index_le : (n from : ℕ) (t : ℕ → Bool) → count_index n from t ≤ n
unfolding count_index
count_index_le zero from t = omega arith
count_index_le (suc n) from t = ground (arith, count_index_le n (from + 1) t)

pub count_index_none :
    (n from : ℕ) (t : ℕ → Bool)
    → ((j : ℕ) → from ≤ j → j < from + n → t j ≡ false)
    → count_index n from t ≡ 0
unfolding count_index
count_index_none zero from t h = refl
count_index_none (suc n) from t h =
    let rest = count_index_none n (from + 1) t (λ j a b. h j (omega arith) (omega arith)) in
    ground (arith, rest, h from (omega arith) (omega arith))

pub count_index_split :
    (m n from : ℕ) (t : ℕ → Bool)
    → count_index (m + n) from t ≡ count_index m from t + count_index n (from + m) t
unfolding count_index
count_index_split zero n from t =
    let a : zero + n ≡ n = omega arith in
    let b : from + zero ≡ from = omega arith in
    let c = ap (λ k. count_index k from t) a in
    let e = ap (λ k. count_index n k t) b in omega (arith, c, e)
count_index_split (suc m) n from t =
    let a : suc m + n ≡ suc (m + n) = omega arith in
    let b : from + 1 + m ≡ from + suc m = omega arith in
    let c = ap (λ k. count_index k from t) a in
    let e = ap (λ k. count_index n k t) b in omega (arith, c, e, count_index_split m n (from + 1) t)

-- What is counted in a range, where nothing passes outside [lo, hi).
pub count_index_within :
    (n lo hi : ℕ) (t : ℕ → Bool)
    → lo ≤ hi
    → hi ≤ n
    → ((j : ℕ) → j < lo → t j ≡ false)
    → ((j : ℕ) → hi ≤ j → j < n → t j ≡ false)
    → count_index n 0 t ≡ count_index (hi - lo) lo t
count_index_within n lo hi t a b below above =
    let whole : lo + ((hi - lo) + (n - hi)) ≡ n = omega arith in
    let c = ap (λ k. count_index k 0 t) whole in
    let s = count_index_split lo ((hi - lo) + (n - hi)) 0 t in
    let r = count_index_split (hi - lo) (n - hi) lo t in
    let top : lo + (hi - lo) ≡ hi = omega arith in
    let e = ap (λ k. count_index (n - hi) k t) top in
    let z = count_index_none lo 0 t (λ j p q. below j (omega (arith, q))) in
    let y = count_index_none (n - hi) hi t (λ j p q. above j p (omega (arith, q))) in
    let bottom : 0 + lo ≡ lo = omega arith in
    let o = ap (λ k. count_index ((hi - lo) + (n - hi)) k t) bottom in
    omega (arith, c, s, r, e, z, y, o)

pub count_index_snoc :
    (n from : ℕ) (t : ℕ → Bool)
    → count_index (suc n) from t ≡ count_index n from t + (if t (from + n) then 1 else 0)
unfolding count_index
count_index_snoc zero from t = let j : from + 0 ≡ from = omega arith in rw j (omega arith)
count_index_snoc (suc n) from t =
    let e = count_index_snoc n (from + 1) t in
    let j : from + 1 + n ≡ from + suc n = omega arith in
    let e' : count_index (suc n) (from + 1) t
        ≡ count_index n (from + 1) t + (if t (from + suc n) then 1 else 0) =
      e ∙ ap (λ m. count_index n (from + 1) t + (if t m then 1 else 0)) j in
    ap (λ m. (if t from then 1 else 0) + m) e' ∙ omega arith
