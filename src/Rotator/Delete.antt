-- ===== src/Rotator/Delete.antt =====
-- The loops of `RotMgr` that delete objects, and lists cut in two.
use android_device_casio_dtx.Base.{
  ℕ, zero, suc, ◌+◌, ◌≤◌, ◌≡◌, ◌∙◌, refl, sym, ap, inl, inr, none, some, List, [], ◌∷◌, ◌++◌,
  length, get_elem?, if◌then◌else◌, ltb, ◌==◌, arith, for_range, for_range_at, length-append,
  Bool-cases, get_elem?-append_right, get_elem?-append_left, get_elem?_beyond,
}
use mathlib.Core.List.{append-nil, append_assoc}
use android_device_casio_dtx.Rotator.Manager.{Rotator, RotMgr, delete_rot}
use android_device_casio_dtx.Rotator.Pool.{take, drop}

pub take_drop : (n : ℕ) (xs : List Rotator) → take n xs ++ drop n xs ≡ xs
take_drop zero xs = refl
take_drop (suc n) [] = refl
take_drop (suc n) (x ∷ xs) = ap (λ ys. x ∷ ys) (take_drop n xs)

pub length-take : (n : ℕ) (xs : List Rotator) → n ≤ length xs → length (take n xs) ≡ n
length-take zero xs h = refl
length-take (suc n) [] h = absurd (omega arith)
length-take (suc n) (x ∷ xs) h = omega (arith, length-take n xs (omega arith))

delete_rot-rot :
    (i j : ℕ) (m : RotMgr) → (delete_rot i m).rot j ≡ (if i == j then none else m.rot j)
unfolding delete_rot
delete_rot-rot i j m = ground arith

delete_rot-deleted_some :
    (i : ℕ) (m : RotMgr) (r : Rotator)
    → m.rot i ≡ some r
    → (delete_rot i m).deleted ≡ m.deleted ++ r ∷ []
unfolding delete_rot
delete_rot-deleted_some i m r e = ground arith

delete_rot_none : (i : ℕ) (m : RotMgr) → m.rot i ≡ none → delete_rot i m ≡ m
unfolding delete_rot
delete_rot_none i m e = ground arith

pub delete_rot-count : (i : ℕ) (m : RotMgr) → (delete_rot i m).use_count ≡ m.use_count
unfolding delete_rot
delete_rot-count i m = ground arith

pub delete_rot-made : (i : ℕ) (m : RotMgr) → (delete_rot i m).made ≡ m.made
unfolding delete_rot
delete_rot-made i m = ground arith

-- A loop that deletes collects the rotators it meets.
delete_all :
    (n from : ℕ) (ys : List Rotator) (m : RotMgr)
    → length ys ≤ n
    → ((j k : ℕ) → from + k ≡ j → m.rot j ≡ get_elem? ys k)
    → (for_range n from delete_rot m).deleted ≡ m.deleted ++ ys
unfolding for_range
delete_all zero from [] m h e = sym (append-nil (m.deleted))
delete_all zero from (y ∷ ys) m h e = absurd (omega arith)
delete_all (suc n) from [] m h e =
    let same = delete_rot_none from m (e from 0 (omega arith)) in
    ap (λ k. (for_range n (from + 1) delete_rot k).deleted) same
    ∙ delete_all n (from + 1) [] m (omega arith) (λ j k q. e j (k + 1) (omega arith))
delete_all (suc n) from (y ∷ ys) m h e =
    let rest =
      delete_all n (from + 1) ys (delete_rot from m) (omega arith)
        (λ j k q. ground (arith, delete_rot-rot from j m, e j (suc k) (omega arith))) in
    let first = delete_rot-deleted_some from m y (e from 0 (omega arith)) in
    rest ∙ ap (λ ds. ds ++ ys) first ∙ append_assoc (m.deleted) (y ∷ []) ys

-- What the loops over the array leave of a manager that lists `xs` and then `ys`.
module _ (xs ys : List Rotator) (n : ℕ) (m : RotMgr) (h : length ys ≤ n)
    (e : (i : ℕ) → m.rot i ≡ get_elem? (xs ++ ys) i) where
  pub kept_entries : (i : ℕ) → (for_range n (length xs) delete_rot m).rot i ≡ get_elem? (xs ++ []) i
  kept_entries i =
      let at =
        for_range_at (λ j k. k.rot j) (λ j v. none) delete_rot delete_rot-rot n (length xs) i m in
      let short : xs ++ [] ≡ xs = append-nil xs in
      elim (Bool-cases (ltb i (length xs))) [
        | inl p ↦ ground (arith, at, e i, short, get_elem?-append_left xs ys i (ground arith))
        | inr p ↦ ground (
          arith,
          at,
          e i,
          short,
          get_elem?_beyond xs i (ground arith),
          length-append xs ys,
          get_elem?_beyond (xs ++ ys) i,
        )
      ]

  pub deleted_entries : (for_range n (length xs) delete_rot m).deleted ≡ m.deleted ++ ys
  deleted_entries =
      delete_all n (length xs) ys m h (λ j k q. e j ∙ get_elem?-append_right xs ys k j q)
