-- ===== src/Hdmi/Best.antt =====
-- The mode that getBestMode chooses, and the table of modes (hdmi.cpp).
use android_device_casio_dtx.Base.{
  ℕ, ◌+◌, ◌≤◌, ◌<◌, ◌≡◌, ◌≢◌, ◌⊎◌, inl, inr, refl, sym, subst, branch, Bool-cases, Option-cases,
  Option, none, some, List, [], ◌∷◌, ltb, ◌==◌, length, arith,
}
use android_device_casio_dtx.Hdmi.{
  Formats, EdidData, edid_data, find_entry, get_mode_order, best_from, get_best_mode,
}

-- The display lists the mode.
abbrev pub Lists : List ℕ → ℕ → Type 0
Lists [] mode = ⊥
Lists (m ∷ modes) mode = (m ≡ mode) ⊎ Lists modes mode

-- The header gives the entries of the table different numbers.
abbrev pub Distinct : Formats → Type 0
Distinct f = (i j : ℕ) → i < 35 → j < 35 → f i ≡ f j → i ≡ j

-- The entries of the table from `k` on have their formats and orders.
abbrev pub IsTable : Formats → ℕ → List EdidData → Type 0
IsTable f k [] = Unit
IsTable f k (e ∷ es) = (e.mode ≡ f k) × (e.mode_order ≡ k + 1) × IsTable f (k + 1) es

pub edid_data-IsTable : (f : Formats) → IsTable f 0 (edid_data f)
unfolding edid_data
edid_data-IsTable f = ground arith

pub length-edid_data : (f : Formats) → length (edid_data f) ≡ 35
unfolding edid_data
length-edid_data f = refl

-- What a search among the entries from `k` up to `to` has found.
abbrev pub EntryFound : Formats → ℕ → ℕ → ℕ → Option EdidData → Type 0
EntryFound f k to mode none = (i : ℕ) → k ≤ i → i < to → f i ≢ mode
EntryFound f k to mode (some e) =
    (i : ℕ) × (k ≤ i) × (i < to) × (f i ≡ mode) × (e.mode ≡ mode) × (e.mode_order ≡ i + 1)

pub find_entry-EntryFound :
    (f : Formats) (k to : ℕ) (table : List EdidData) (mode : ℕ)
    → k + length table ≡ to
    → IsTable f k table
    → EntryFound f k to mode (find_entry table mode)
unfolding find_entry
find_entry-EntryFound f k to [] mode e h = λ i p q. absurd (omega arith)
find_entry-EntryFound f k to (d ∷ table) mode e h =
    branch (d.mode == mode) (EntryFound f k to mode) (some d) (find_entry table mode)
      (λ t. (k, omega arith, omega arith, ground arith, ground arith, h.1))
      (λ n.
        later (find_entry table mode)
          (find_entry-EntryFound f (k + 1) to table mode (omega arith) h.2) (ground arith))
  where
    later :
        (o : Option EdidData)
        → EntryFound f (k + 1) to mode o
        → f k ≢ mode
        → EntryFound f k to mode o
    later none miss other = λ i p q. elim (Bool-cases (i == k)) [
      | inl t ↦ let same : i ≡ k = ground arith in rw same other
      | inr t ↦ miss i (ground arith) q
    ]
    later (some e) (i, p, q, a, b, c) other = (i, omega arith, q, a, b, c)

-- A mode's order tells its entry, and the modes without one have no entry.
abbrev Ordered : Formats → ℕ → Option ℕ → Type 0
Ordered f mode none = (i : ℕ) → i < 35 → f i ≢ mode
Ordered f mode (some o) = (i : ℕ) × (i < 35) × (f i ≡ mode) × (o ≡ i + 1)

get_mode_order-Ordered :
    (f : Formats) (mode : ℕ) → Ordered f mode (get_mode_order (edid_data f) mode)
unfolding get_mode_order edid_data
get_mode_order-Ordered f mode =
    order_of (find_entry (edid_data f) mode)
      (find_entry-EntryFound f 0 35 (edid_data f) mode (length-edid_data f) (edid_data-IsTable f))
  where
    order_of :
        (o : Option EdidData)
        → EntryFound f 0 35 mode o
        → Ordered f mode (elim o [ none ↦ none | some e ↦ some e.mode_order ])
    order_of none miss = λ i h. miss i (omega arith) h
    order_of (some e) (i, _, h, same, _, o) = (i, h, same, o)

-- Every listed mode with an order is at most `top`.
abbrev AtMost : List EdidData → List ℕ → ℕ → Type 0
AtMost t modes top = (m o : ℕ) → Lists modes m → get_mode_order t m ≡ some o → o ≤ top

-- The best of the listed modes, or the one before, if none is better.
abbrev BestFrom : List EdidData → List ℕ → ℕ → ℕ → ℕ → Type 0
BestFrom t modes best_order best_mode r =
    (top : ℕ) × (best_order ≤ top)
    × AtMost t modes top
    × (((r ≡ best_mode) × (top ≡ best_order)) ⊎ (Lists modes r × (get_mode_order t r ≡ some top)))

AtMost-cons :
    (t : List EdidData) (m : ℕ) (modes : List ℕ) (top : ℕ)
    → ((o : ℕ) → get_mode_order t m ≡ some o → o ≤ top)
    → AtMost t modes top
    → AtMost t (m ∷ modes) top
AtMost-cons t m modes top first rest n o (inl same) = λ e. first o (rw same e)
AtMost-cons t m modes top first rest n o (inr l) = rest n o l

module _ (t : List EdidData) (m : ℕ) (modes : List ℕ) (bo bm r : ℕ) where
  skipped :
      ((o : ℕ) → get_mode_order t m ≡ some o → o ≤ bo)
      → BestFrom t modes bo bm r
      → BestFrom t (m ∷ modes) bo bm r
  skipped low (top, h, most, inl old) =
      (top, h, AtMost-cons t m modes top (λ o e. omega (arith, low o e)) most, inl old)
  skipped low (top, h, most, inr (l, e)) =
      (top, h, AtMost-cons t m modes top (λ o e. omega (arith, low o e)) most, inr (inr l, e))

  taken :
      (o : ℕ)
      → get_mode_order t m ≡ some o
      → bo < o
      → BestFrom t modes o m r
      → BestFrom t (m ∷ modes) bo bm r
  taken o e lt (top, h, most, inl (same, at)) = (
    top,
    omega arith,
    AtMost-cons t m modes top (λ o' e'. ground arith) most,
    inr (inl (ground arith), ground arith),
  )
  taken o e lt (top, h, most, inr (l, at)) =
      (top, omega arith, AtMost-cons t m modes top (λ o' e'. ground arith) most, inr (inr l, at))

best_from-BestFrom :
    (t : List EdidData) (modes : List ℕ) (best_order best_mode : ℕ)
    → BestFrom t modes best_order best_mode (best_from t modes best_order best_mode)
unfolding best_from
best_from-BestFrom t [] bo bm = (bo, omega arith, λ m o l. absurd l, inl (refl, refl))
best_from-BestFrom t (m ∷ modes) bo bm = elim (Option-cases (get_mode_order t m)) [
  | inl e ↦
      rw (e, best_from)
        (skipped t m modes bo bm _ (λ o e'. ground arith) (best_from-BestFrom t modes bo bm))
  | inr (o, e) ↦
      rw (e, best_from)
        (branch (ltb bo o) (BestFrom t (m ∷ modes) bo bm) (best_from t modes o m)
          (best_from t modes bo bm)
          (λ less. taken t m modes bo bm _ o e (ground arith) (best_from-BestFrom t modes o m))
          (λ more.
            skipped t m modes bo bm _ (λ o' e'. ground arith) (best_from-BestFrom t modes bo bm)))
]

order_is :
    (f : Formats) (j : ℕ)
    → Distinct f
    → j < 35
    → (o : Option ℕ) → Ordered f (f j) o
    → o ≡ some (j + 1)
order_is f j distinct h none miss = absurd (miss j h refl)
order_is f j distinct h (some o) (i, p, same, q) = let e = distinct i j p h same in ground arith

pub get_mode_order_at :
    (f : Formats) (j : ℕ) → Distinct f → j < 35 → get_mode_order (edid_data f) (f j) ≡ some (j + 1)
get_mode_order_at f j distinct h =
    order_is f j distinct h (get_mode_order (edid_data f) (f j)) (get_mode_order-Ordered f (f j))

order_of :
    (f : Formats) (mode o : ℕ)
    → get_mode_order (edid_data f) mode ≡ some o
    → (i : ℕ) × (i < 35) × (f i ≡ mode) × (o ≡ i + 1)
order_of f mode o e = subst (Ordered f mode) e (get_mode_order-Ordered f mode)

-- What getBestMode answers: the last mode of the table that the display lists, or 640x480.
abbrev pub IsBest : Formats → List ℕ → ℕ → Type 0
IsBest f modes mode =
    (i : ℕ) × (i < 35)
    × (mode ≡ f i)
    × ((j : ℕ) → i < j → j < 35 → ¬ Lists modes (f j))
    × (Lists modes (f i) ⊎ ((i ≡ 5) × ((j : ℕ) → j < 35 → ¬ Lists modes (f j))))

best_from-IsBest :
    (f : Formats) (modes : List ℕ) (r : ℕ)
    → Distinct f
    → BestFrom (edid_data f) modes 0 (f 5) r
    → IsBest f modes r
best_from-IsBest f modes r distinct (top, _, most, inl (same, zero_top)) =
    let none_listed : (j : ℕ) → j < 35 → ¬ Lists modes (f j) = λ j h l.
      absurd (omega (arith, most (f j) (j + 1) l (get_mode_order_at f j distinct h), zero_top)) in
    (5, omega arith, same, λ j _ h. none_listed j h, inr (refl, none_listed))
best_from-IsBest f modes r distinct (top, _, most, inr (l, e)) =
    let (i, h, same, at) = order_of f r top e in
    (
      i,
      h,
      sym same,
      λ j lt h' l'.
          absurd (omega (arith, most (f j) (j + 1) l' (get_mode_order_at f j distinct h'), at, lt)),
      inl (subst (Lists modes) (sym same) l),
    )

-- getBestMode answers a mode of the table after which the display lists no other mode of the table,
-- and which it lists itself, or 640x480, when it lists none of the table; the header's numbers of
-- the modes are different.
pub get_best_mode-IsBest :
    (f : Formats) (modes : List ℕ) → Distinct f → IsBest f modes (get_best_mode f modes)
unfolding get_best_mode
get_best_mode-IsBest f modes distinct =
    best_from-IsBest f modes _ distinct (best_from-BestFrom (edid_data f) modes 0 (f 5))
