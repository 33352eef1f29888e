-- ===== src/Hdmi.antt =====
-- libhdmi/hdmi.cpp and hdmi.h: the modes of an external display and what is chosen among them.
-- An int that names a mode is held as its 32-bit pattern, so that -1 is `no_mode`. The numbers of
-- the modes come from the kernel's header: `format i` is the one in entry `i` of the table.
pub mod Best
pub mod Parse
pub mod Display
pub mod Configure
pub mod Scaled
pub mod Examples
pub mod Printed
use android_device_casio_dtx.Base.{
  ℕ, ◌+◌, Bool, true, false, not, ◌&&◌, ◌||◌, Option, none, some, List, [], ◌∷◌, ltb, ◌==◌,
  if◌then◌else◌,
}

abbrev pub Formats : Type 0
Formats = ℕ → ℕ

abbrev pub no_mode : ℕ
no_mode = 4294967295

-- `EDIDData`.
pub record EdidData : Type 0 where
  pub mode : ℕ
  pub width : ℕ
  pub height : ℕ
  pub fps : ℕ
  pub mode_order : ℕ

abbrev pub entry : Formats → ℕ → ℕ → ℕ → ℕ → EdidData
entry format i width height fps = record {
  mode = format i;
  width = width;
  height = height;
  fps = fps;
  mode_order = i + 1;
}

-- `gEDIDData`: the orders count up from 1.
unfoldable pub edid_data : Formats → List EdidData
edid_data f =
    entry f 0 1440 480 60
    ∷ entry f 1 1440 480 60
    ∷ entry f 2 1440 576 50
    ∷ entry f 3 1440 576 50
    ∷ entry f 4 1920 1080 60
    ∷ entry f 5 640 480 60
    ∷ entry f 6 720 480 60
    ∷ entry f 7 720 480 60
    ∷ entry f 8 720 576 50
    ∷ entry f 9 720 576 50
    ∷ entry f 10 800 600 60
    ∷ entry f 11 848 480 60
    ∷ entry f 12 1024 768 60
    ∷ entry f 13 1280 1024 60
    ∷ entry f 14 1280 720 50
    ∷ entry f 15 1280 720 60
    ∷ entry f 16 1280 800 60
    ∷ entry f 17 1280 960 60
    ∷ entry f 18 1360 768 60
    ∷ entry f 19 1366 768 60
    ∷ entry f 20 1440 900 60
    ∷ entry f 21 1400 1050 60
    ∷ entry f 22 1680 1050 60
    ∷ entry f 23 1600 1200 60
    ∷ entry f 24 1920 1080 24
    ∷ entry f 25 1920 1080 25
    ∷ entry f 26 1920 1080 30
    ∷ entry f 27 1920 1080 50
    ∷ entry f 28 1920 1080 60
    ∷ entry f 29 1920 1200 60
    ∷ entry f 30 2560 1600 60
    ∷ entry f 31 3840 2160 24
    ∷ entry f 32 3840 2160 25
    ∷ entry f 33 3840 2160 30
    ∷ entry f 34 4096 2160 24
    ∷ []

-- The first entry of a mode.
unfoldable pub find_entry : List EdidData → ℕ → Option EdidData
find_entry [] mode = none
find_entry (e ∷ es) mode = if e.mode == mode then some e else find_entry es mode

-- `none` is -1.
unfoldable pub get_mode_order : List EdidData → ℕ → Option ℕ
unfolding find_entry
get_mode_order table mode = elim (find_entry table mode) [
  | none ↦ none
  | some e ↦ some e.mode_order
]

-- The loop of getBestMode over the modes that the display lists.
unfoldable pub best_from : List EdidData → List ℕ → ℕ → ℕ → ℕ
unfolding get_mode_order
best_from table [] best_order best_mode = best_mode
best_from table (mode ∷ modes) best_order best_mode = elim (get_mode_order table mode) [
  | none ↦ best_from table modes best_order best_mode
  | some order ↦
      let better = best_from table modes order mode in
      let rest = best_from table modes best_order best_mode in
      if ltb best_order order then better else rest
]

unfoldable pub get_best_mode : Formats → List ℕ → ℕ
unfolding best_from edid_data
get_best_mode f edid_modes = best_from (edid_data f) edid_modes 0 (f 5)

unfoldable pub is_valid_mode : List ℕ → ℕ → Bool
is_valid_mode [] mode = false
is_valid_mode (m ∷ modes) mode = if mode == m then true else is_valid_mode modes mode

unfoldable pub is_interlaced_mode : Formats → ℕ → Bool
is_interlaced_mode f mode = mode == f 0 || mode == f 1 || mode == f 2 || mode == f 3 || mode == f 4

-- `property` is the number that the property hw.hdmi.resolution holds.
unfoldable pub get_user_mode : Formats → List ℕ → ℕ → ℕ
unfolding is_valid_mode is_interlaced_mode
get_user_mode f edid_modes property =
    if is_valid_mode edid_modes property && not (is_interlaced_mode f property)
    then property
    else no_mode

-- The mode that configure sets.
unfoldable pub choose_mode : Formats → List ℕ → ℕ → ℕ
unfolding get_user_mode get_best_mode
choose_mode f edid_modes property =
    let user = get_user_mode f edid_modes property in
    if user == no_mode then get_best_mode f edid_modes else user
