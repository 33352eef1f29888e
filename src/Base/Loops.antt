-- ===== src/Base/Loops.antt =====
-- Loops over the index of an array.
use Prim.Native.Nat.{ℕ, zero, suc, ◌+◌, ◌≤◌, ◌<◌}
use mathlib.Core.Path.{◌≡◌, refl, subst, ◌∙◌}
use mathlib.Core.List.{List, [], ◌∷◌}
use mathlib.Core.Logic.{◌⊎◌, inl, inr}
use mathlib.Core.Bool.{Bool, true, false, ◌&&◌}
use native.Mathlib.Omega.{arith}
use android_device_casio_dtx.Base.Tests.{if◌then◌else◌, Bool-cases, ◌==◌, ltb, leb}

-- for(i = from; i < from + n; i++) if(test(i)) return i; return fail;
unfoldable pub find_index : ℕ → ℕ → (ℕ → Bool) → ℕ → ℕ
find_index zero from test fail = fail
find_index (suc n) from test fail = elim (test from) [
  | true ↦ from
  | false ↦ find_index n (from + 1) test fail
]

-- for(i = from; i < from + n; i++) if(test(i)) count++;
unfoldable pub count_index : ℕ → ℕ → (ℕ → Bool) → ℕ
count_index zero from test = 0
count_index (suc n) from test = (if test from then 1 else 0) + count_index n (from + 1) test

-- for(i = from; i < from + n; i++) s = body(i, s);
unfoldable pub for_range {ℓ} : {S : Type ℓ} → ℕ → ℕ → (ℕ → S → S) → S → S
for_range zero from body s = s
for_range (suc n) from body s = for_range n (from + 1) body (body from s)

-- for(i = from; i < from + n; i++) if(test(i)) out.push_back(i);
unfoldable pub filter_index : ℕ → ℕ → (ℕ → Bool) → List ℕ
filter_index zero from test = []
filter_index (suc n) from test =
    let rest = filter_index n (from + 1) test in if test from then from ∷ rest else rest

-- No index of the range passes.
abbrev pub NonePass : ℕ → ℕ → (ℕ → Bool) → Type 0
NonePass from to test = (j : ℕ) → from ≤ j → j < to → test j ≡ false

-- The index `r` is the first of the range that passes.
abbrev pub FirstPass : ℕ → ℕ → (ℕ → Bool) → ℕ → Type 0
FirstPass from to test r = (test r ≡ true) × (from ≤ r) × (r < to) × NonePass from r test

NonePass-cons :
    (from to : ℕ) (test : ℕ → Bool)
    → test from ≡ false
    → NonePass (from + 1) to test
    → NonePass from to test
NonePass-cons from to test e h j a b = elim (Bool-cases (from == j)) [
  | inl q ↦ let p : from ≡ j = ground arith in subst (λ k. test k ≡ false) p e
  | inr q ↦ h j (ground arith) b
]

-- The search ends at the first index that passes, or fails where none does.
abbrev pub Found : ℕ → ℕ → (ℕ → Bool) → ℕ → ℕ → Type 0
Found from to test fail r = ((r ≡ fail) × NonePass from to test) ⊎ FirstPass from to test r

Found-cons :
    (from to : ℕ) (test : ℕ → Bool) (fail r : ℕ)
    → test from ≡ false
    → Found (from + 1) to test fail r
    → Found from to test fail r
Found-cons from to test fail r e (inl (p, h)) = inl (p, NonePass-cons from to test e h)
Found-cons from to test fail r e (inr (p, lo, hi, h)) =
    inr (p, omega arith, hi, NonePass-cons from r test e h)

pub find_index-Found :
    (n from to : ℕ) (test : ℕ → Bool) (fail : ℕ)
    → from + n ≡ to
    → Found from to test fail (find_index n from test fail)
unfolding find_index
find_index-Found zero from to test fail h = inl (refl, λ j a b. absurd (omega arith))
find_index-Found (suc n) from to test fail h = elim (Bool-cases (test from)) [
  | inl p ↦ rw (p, find_index) (inr (p, omega arith, omega arith, λ j a b. absurd (omega arith)))
  | inr q ↦
      rw (q, find_index)
        (Found-cons from to test fail _ q
          (find_index-Found n (from + 1) to test fail (omega arith)))
]

-- What a loop does at one index, where each round touches its own index alone.
pub for_range_at {ℓ κ} :
    {S : Type ℓ} {V : Type κ} (view : ℕ → S → V) (act : ℕ → V → V) (body : ℕ → S → S)
    → ((i j : ℕ) (s : S) → view j (body i s) ≡ (if i == j then act j (view j s) else view j s))
    → (n from j : ℕ) (s : S)
    → view j (for_range n from body s)
      ≡ (if leb from j && ltb j (from + n) then act j (view j s) else view j s)
unfolding for_range
for_range_at view act body local zero from j s = ground arith
for_range_at view act body local (suc n) from j s =
    ground (arith, local from j s, for_range_at view act body local n (from + 1) j (body from s))

-- What no round touches.
pub for_range_keeps {ℓ κ} :
    {S : Type ℓ} {V : Type κ} (field : S → V) (body : ℕ → S → S)
    → ((i : ℕ) (s : S) → field (body i s) ≡ field s)
    → (n from : ℕ) (s : S) → field (for_range n from body s) ≡ field s
unfolding for_range
for_range_keeps field body keeps zero from s = refl
for_range_keeps field body keeps (suc n) from s =
    for_range_keeps field body keeps n (from + 1) (body from s) ∙ keeps from s

-- The same for a loop from 0.
pub for_range_at_zero {ℓ κ} :
    {S : Type ℓ} {V : Type κ} (view : ℕ → S → V) (act : ℕ → V → V) (body : ℕ → S → S)
    → ((i j : ℕ) (s : S) → view j (body i s) ≡ (if i == j then act j (view j s) else view j s))
    → (n j : ℕ) (s : S)
    → view j (for_range n 0 body s) ≡ (if ltb j n then act j (view j s) else view j s)
for_range_at_zero view act body local n j s =
    ground (arith, for_range_at view act body local n 0 j s)

-- What `filter_index` collects passes, and rises.
abbrev pub Collects : ℕ → ℕ → (ℕ → Bool) → List ℕ → Type 0
Collects from to test [] = NonePass from to test
Collects from to test (i ∷ is) = FirstPass from to test i × Collects (i + 1) to test is

Collects-skip :
    (from to : ℕ) (test : ℕ → Bool) (is : List ℕ)
    → test from ≡ false
    → Collects (from + 1) to test is
    → Collects from to test is
Collects-skip from to test [] e h = NonePass-cons from to test e h
Collects-skip from to test (i ∷ is) e ((p, lo, hi, h), c) =
    ((p, omega arith, hi, NonePass-cons from i test e h), c)

pub filter_index-Collects :
    (n from to : ℕ) (test : ℕ → Bool)
    → from + n ≡ to
    → Collects from to test (filter_index n from test)
unfolding filter_index
filter_index-Collects zero from to test h = λ j a b. absurd (omega arith)
filter_index-Collects (suc n) from to test h =
    let rest = filter_index-Collects n (from + 1) to test (omega arith) in
    elim (Bool-cases (test from)) [
      | inl p ↦ rw p ((p, omega arith, omega arith, λ j a b. absurd (omega arith)), rest)
      | inr q ↦ rw q (Collects-skip from to test _ q rest)
    ]

-- What every round keeps.
pub for_range_invariant {ℓ κ} :
    {S : Type ℓ} (P : S → Type κ) (body : ℕ → S → S) (n from : ℕ) (s : S)
    → ((i : ℕ) (t : S) → from ≤ i → i < from + n → P t → P (body i t))
    → P s
    → P (for_range n from body s)
unfolding for_range
for_range_invariant P body zero from s keeps p = p
for_range_invariant P body (suc n) from s keeps p =
    for_range_invariant P body n (from + 1) (body from s)
      (λ i t a b. keeps i t (omega arith) (omega arith))
      (keeps from s (omega arith) (omega arith) p)

-- A property of the index and the state that each round takes one further.
pub for_range_indexed {ℓ κ} :
    {S : Type ℓ} (P : ℕ → S → Type κ) (body : ℕ → S → S) (n from to : ℕ) (s : S)
    → from + n ≡ to
    → ((i : ℕ) (t : S) → i < to → P i t → P (suc i) (body i t))
    → P from s
    → P to (for_range n from body s)
unfolding for_range
for_range_indexed P body zero from to s e keeps p =
    let q : from ≡ to = omega arith in subst (λ k. P k s) q p
for_range_indexed P body (suc n) from to s e keeps p =
    let q : suc from ≡ from + 1 = omega arith in
    for_range_indexed P body n (from + 1) to (body from s) (omega arith) keeps
      (subst (λ k. P k (body from s)) q (keeps from s (omega arith) p))
