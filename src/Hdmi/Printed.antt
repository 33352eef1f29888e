-- ===== src/Hdmi/Printed.antt =====
-- parseResolution on lists of numbers (hdmi.cpp).
use android_device_casio_dtx.Base.{
  ℕ, zero, suc, ◌+◌, ◌*◌, ◌-◌, ◌≤◌, ◌<◌, ◌≡◌, refl, ap, subst, ◌∙◌, Bool, true, false, ◌&&◌, some,
  List, [], ◌∷◌, ◌++◌, map, leb, length, length-append, All, arith,
}
use mathlib.Core.List.{append-nil}
use android_device_casio_dtx.Hdmi.Parse.{
  Strtol, comma, done, parse_from, parse_resolution, trim_tail, trim, read_resolution,
}

abbrev pub is_digit : ℕ → Bool
is_digit c = leb 48 c && leb c 57

abbrev pub decimal_from : ℕ → List ℕ → ℕ
decimal_from n [] = n
decimal_from n (d ∷ ds) = decimal_from (n * 10 + (d - 48)) ds

abbrev pub decimal : List ℕ → ℕ
decimal ds = decimal_from 0 ds

-- The digits of an int.
pub record IsNumber (ds : List ℕ) : Type 0 where
  pub some_digit : 0 < length ds
  pub digits : All (λ c. is_digit c ≡ true) ds
  pub fits : decimal ds < 2147483648

abbrev pub NoDigit : List ℕ → Type 0
NoDigit [] = Unit
NoDigit (c ∷ text) = is_digit c ≡ false

-- strtol reads the digits of an int up to the first character that is no digit.
abbrev pub ReadsDecimal : Strtol → Type 0
ReadsDecimal strtol =
    (ds rest : List ℕ) → IsNumber ds → NoDigit rest → strtol (ds ++ rest) ≡ (decimal ds, rest)

-- isspace holds of no digit and of no comma.
abbrev pub SpacesApart : (ℕ → Bool) → Type 0
SpacesApart isspace = ((c : ℕ) → is_digit c ≡ true → isspace c ≡ false) × (isspace comma ≡ false)

abbrev pub join : List ℕ → List (List ℕ) → List ℕ
join ds [] = ds
join ds (es ∷ more) = ds ++ comma ∷ join es more

module _ (strtol : Strtol) (reads : ReadsDecimal strtol) where
  parse_from-join :
      (fuel count : ℕ) (ds : List ℕ) (more : List (List ℕ))
      → length more < fuel
      → count + length more < 64
      → IsNumber ds
      → All IsNumber more
      → parse_from strtol fuel count (join ds more) ≡ done (decimal ds ∷ map decimal more)
  unfolding parse_from
  parse_from-join zero count ds more h k p q = absurd (omega arith)
  parse_from-join (suc fuel) count ds [] h k p q =
      let room : leb 64 count ≡ false = ground arith in
      let read : strtol ds ≡ (decimal ds, []) =
        subst (λ t. strtol t ≡ (decimal ds, [])) (append-nil ds) (reads ds [] p tt) in
      rw (room, read) refl
  parse_from-join (suc fuel) count ds (es ∷ more) h k p q =
      let ih = parse_from-join fuel (count + 1) es more (omega arith) (omega arith) q.0 q.1 in
      let room : leb 64 count ≡ false = ground arith in
      let read = reads ds (comma ∷ join es more) p refl in rw (room, read, ih) refl

module _ (isspace : ℕ → Bool) (apart : SpacesApart isspace) where
  trim_tail-append_spaces :
      (text spaces : List ℕ)
      → All (λ c. isspace c ≡ true) spaces
      → trim_tail isspace (text ++ spaces) ≡ trim_tail isspace text
  unfolding trim_tail
  trim_tail-append_spaces [] [] h = refl
  trim_tail-append_spaces [] (c ∷ spaces) h = rw (trim_tail-append_spaces [] spaces h.1, h.0) refl
  trim_tail-append_spaces (c ∷ text) spaces h = rw (trim_tail-append_spaces text spaces h) refl

  trim_tail-solid :
      (text : List ℕ) → All (λ c. isspace c ≡ false) text → trim_tail isspace text ≡ text
  unfolding trim_tail
  trim_tail-solid [] h = refl
  trim_tail-solid (c ∷ []) h = rw h.0 refl
  trim_tail-solid (c ∷ d ∷ text) h = rw (trim_tail-solid (d ∷ text) h.1) refl

  All-digits : (ds : List ℕ) → All (λ c. is_digit c ≡ true) ds → All (λ c. isspace c ≡ false) ds
  All-digits [] h = tt
  All-digits (d ∷ ds) h = (apart.0 d h.0, All-digits ds h.1)

  join-solid :
      (ds : List ℕ) (more : List (List ℕ))
      → IsNumber ds
      → All IsNumber more
      → All (λ c. isspace c ≡ false) (join ds more)
  join-solid ds [] p q = All-digits ds p.digits
  join-solid ds (es ∷ more) p q =
      All-append ds (comma ∷ join es more) (All-digits ds p.digits)
        (apart.1, join-solid es more q.0 q.1)
    where
      All-append :
          (xs ys : List ℕ)
          → All (λ c. isspace c ≡ false) xs
          → All (λ c. isspace c ≡ false) ys
          → All (λ c. isspace c ≡ false) (xs ++ ys)
      All-append [] ys f g = g
      All-append (x ∷ xs) ys f g = (f.0, All-append xs ys f.1 g)

  read_resolution-solid :
      (strtol : Strtol) (text spaces : List ℕ)
      → 0 < length text
      → All (λ c. isspace c ≡ false) text
      → All (λ c. isspace c ≡ true) spaces
      → read_resolution strtol isspace (some (text ++ spaces)) ≡ some (parse_resolution strtol text)
  unfolding read_resolution trim
  read_resolution-solid strtol [] spaces h solid blank = absurd (omega arith)
  read_resolution-solid strtol (c ∷ text) spaces h solid blank =
      ap (λ t. some (parse_resolution strtol (c ∷ t)))
        (trim_tail-append_spaces text spaces blank ∙ trim_tail-solid text solid.1)

-- A list of numbers has at least two characters for each but the last.
length-join :
    (ds : List ℕ) (more : List (List ℕ))
    → IsNumber ds
    → All IsNumber more
    → 2 * length more + 1 ≤ length (join ds more)
length-join ds [] p q = omega (arith, p.some_digit)
length-join ds (es ∷ more) p q =
    omega (
      arith,
      p.some_digit,
      length-join es more q.0 q.1,
      length-append {0} ds (comma ∷ join es more),
    )

-- Of a file edid_modes that holds ints in decimal, joined by commas, with spaces at the end, and no
-- more than the 127 bytes that are read, readResolution reads each number, in order and inside of
-- mEDIDModes; strtol reads decimal ints, and digits and commas are no spaces.
pub read_resolution-join :
    (strtol : Strtol) (isspace : ℕ → Bool) (ds : List ℕ) (more : List (List ℕ)) (spaces : List ℕ)
    → ReadsDecimal strtol
    → SpacesApart isspace
    → IsNumber ds
    → All IsNumber more
    → All (λ c. isspace c ≡ true) spaces
    → length (join ds more ++ spaces) ≤ 127
    → read_resolution strtol isspace (some (join ds more ++ spaces))
      ≡ some (done (decimal ds ∷ map decimal more))
unfolding parse_resolution
read_resolution-join strtol isspace ds more spaces reads apart p q blank short =
    let long = length-join ds more p q in
    let total = length-append {0} (join ds more) spaces in
    read_resolution-solid isspace apart strtol (join ds more) spaces (omega arith)
      (join-solid isspace apart ds more p q) blank
    ∙ ap some (
        parse_from-join strtol reads (suc (length (join ds more))) 0 ds more (omega arith)
          (omega arith) p q)
