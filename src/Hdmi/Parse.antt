-- ===== src/Hdmi/Parse.antt =====
-- hdmi.cpp: parseResolution and readResolution. strtol and isspace are the C library's, parameters;
-- strtol answers the number, cast to an int, and the text from `end` on.
use android_device_casio_dtx.Base.{
  ℕ, zero, suc, ◌+◌, Bool, false, Option, none, some, List, [], ◌∷◌, leb, ◌==◌, if◌then◌else◌,
  length,
}

abbrev pub Strtol : Type 0
Strtol = List ℕ → ℕ × List ℕ

abbrev pub comma : ℕ
comma = 44

-- The modes that were read; a write past the 64 elements of mEDIDModes; or fuel that is too short.
pub data Parsed : Type 0 where
  done : List ℕ → Parsed
  past_end : Parsed
  out_of_fuel : Parsed

abbrev pub add_mode : ℕ → Parsed → Parsed
add_mode mode (done modes) = done (mode ∷ modes)
add_mode mode past_end = past_end
add_mode mode out_of_fuel = out_of_fuel

abbrev pub begins : ℕ → List ℕ → Bool
begins c [] = false
begins c (d ∷ text) = d == c

abbrev pub after_first : List ℕ → List ℕ
after_first [] = []
after_first (c ∷ text) = text

unfoldable pub parse_from : Strtol → ℕ → ℕ → List ℕ → Parsed
parse_from strtol zero count text = out_of_fuel
parse_from strtol (suc fuel) count text =
    let (mode, end) = strtol text in
    let rest = add_mode mode (parse_from strtol fuel (count + 1) (after_first end)) in
    if leb 64 count then past_end else if begins comma end then rest else done (mode ∷ [])

-- Each round but the last takes a comma.
unfoldable pub parse_resolution : Strtol → List ℕ → Parsed
unfolding parse_from
parse_resolution strtol text = parse_from strtol (suc (length text)) 0 text

unfoldable pub trim_tail : (ℕ → Bool) → List ℕ → List ℕ
trim_tail isspace [] = []
trim_tail isspace (c ∷ text) = elim (trim_tail isspace text) [
  | [] ↦ if isspace c then [] else c ∷ []
  | d ∷ rest ↦ c ∷ d ∷ rest
]

-- The first character stays.
unfoldable pub trim : (ℕ → Bool) → List ℕ → List ℕ
unfolding trim_tail
trim isspace [] = []
trim isspace (c ∷ text) = c ∷ trim_tail isspace text

-- What is read of the file edid_modes, at most 127 bytes of it; `none` if it cannot be opened or
-- read. The modes before stay where the answer is `none`.
unfoldable pub read_resolution : Strtol → (ℕ → Bool) → Option (List ℕ) → Option Parsed
unfolding trim parse_resolution
read_resolution strtol isspace none = none
read_resolution strtol isspace (some []) = none
read_resolution strtol isspace (some (c ∷ text)) =
    some (parse_resolution strtol (trim isspace (c ∷ text)))
