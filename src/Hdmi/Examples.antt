-- ===== src/Hdmi/Examples.antt =====
-- The theorems on an external display at a television that lists a few modes.
use android_device_casio_dtx.Base.{
  ℕ, zero, suc, All, ◌+◌, ◌-◌, ◌*◌, ◌%◌, ◌≤◌, ◌≡◌, refl, Bool, true, false, ◌||◌, none, some, List,
  [], ◌∷◌, ◌++◌, ◌==◌, if◌then◌else◌, arith,
}
use android_device_casio_dtx.Hdmi.{Formats, get_best_mode, no_mode}
use android_device_casio_dtx.Hdmi.Best.{Distinct, IsBest, get_best_mode-IsBest}
use android_device_casio_dtx.Hdmi.Parse.{
  Strtol, comma, done, past_end, parse_resolution, read_resolution,
}
use android_device_casio_dtx.Hdmi.Printed.{
  is_digit, decimal_from, NoDigit, IsNumber, ReadsDecimal, SpacesApart, join, read_resolution-join,
}
use android_device_casio_dtx.Hdmi.Display.{
  HdmiDisplay, Platform, Connection, configure, scaled_resolution, open_frame_buffer, is_open,
  modes_after,
}
use android_device_casio_dtx.Hdmi.Configure.{Ends, configure-Ends}
use android_device_casio_dtx.Hdmi.Scaled.{scaled_resolution-Downscales}

abbrev formats : Formats
formats i = i + 1

formats-Distinct : Distinct formats
formats-Distinct i j h k e = omega arith

abbrev read_digits : ℕ → List ℕ → ℕ × List ℕ
read_digits n [] = (n, [])
read_digits n (c ∷ text) =
    let rest = read_digits (n * 10 + (c - 48)) text in if is_digit c then rest else (n, c ∷ text)

abbrev strtol : Strtol
strtol text = read_digits 0 text

read_digits-append :
    (ds rest : List ℕ) (n : ℕ)
    → All (λ c. is_digit c ≡ true) ds
    → NoDigit rest
    → read_digits n (ds ++ rest) ≡ (decimal_from n ds, rest)
read_digits-append [] [] n h k = refl
read_digits-append [] (c ∷ rest) n h k = rw k refl
read_digits-append (d ∷ ds) rest n h k =
    rw h.0 (read_digits-append ds rest (n * 10 + (d - 48)) h.1 k)

strtol-ReadsDecimal : ReadsDecimal strtol
strtol-ReadsDecimal ds rest p k = read_digits-append ds rest 0 p.digits k

abbrev isspace : ℕ → Bool
isspace c = c == 32 || c == 10

isspace-SpacesApart : SpacesApart isspace
isspace-SpacesApart = (λ c h. ground arith, refl)

get_best_mode-IsBest_example :
    IsBest formats (16 ∷ 4 ∷ 5 ∷ 90 ∷ []) (get_best_mode formats (16 ∷ 4 ∷ 5 ∷ 90 ∷ []))
get_best_mode-IsBest_example = get_best_mode-IsBest formats (16 ∷ 4 ∷ 5 ∷ 90 ∷ []) formats-Distinct

best_of_four : get_best_mode formats (16 ∷ 4 ∷ 5 ∷ 90 ∷ []) ≡ 16
unfolding get_best_mode
best_of_four = refl

-- 16
abbrev sixteen : List ℕ
sixteen = 49 ∷ 54 ∷ []

abbrev four : List ℕ
four = 52 ∷ []

sixteen-IsNumber : IsNumber sixteen
sixteen-IsNumber = ground arith

four-IsNumber : IsNumber four
four-IsNumber = ground arith

abbrev newline : List ℕ
newline = 10 ∷ []

read_resolution-join_example :
    read_resolution strtol isspace (some (join sixteen (four ∷ []) ++ newline))
    ≡ some (done (16 ∷ 4 ∷ []))
read_resolution-join_example =
    read_resolution-join strtol isspace sixteen (four ∷ []) newline strtol-ReadsDecimal
      isspace-SpacesApart sixteen-IsNumber (four-IsNumber, tt) (refl, tt) (omega arith)

abbrev commas : ℕ → List ℕ
commas zero = []
commas (suc n) = comma ∷ commas n

-- Commas alone are numbers too, for strtol: 64 of them are written past the array.
commas_overflow : parse_resolution strtol (commas 64) ≡ past_end
unfolding parse_resolution
commas_overflow = refl

abbrev platform : Platform
platform = record {
  ui_scaling_on_external = true;
  src_split = false;
  max_mdp_downscale = 4;
  strtol = strtol;
  atoi = λ t. (strtol t).0;
  isspace = isspace;
}

abbrev idle : HdmiDisplay
idle = record {
  fd = none;
  current_mode = no_mode;
  edid_modes = [];
  xres = 0;
  yres = 0;
  vsync_period = 0;
  primary_width = 720;
  primary_height = 1280;
  mdp_scaling_mode = false;
  underscan_supported = false;
  mdp_downscale_enabled = false;
}

abbrev television : Connection
television = record {
  opened = some 7;
  scan_info = some (49 ∷ 44 ∷ 50 ∷ 44 ∷ 51 ∷ []);
  edid_modes_file = some (join sixteen (four ∷ []) ++ newline);
  resolution_property = no_mode;
  downscale_property = true;
}

television_opens : is_open (open_frame_buffer television.opened idle) ≡ true
unfolding is_open open_frame_buffer
television_opens = refl

television_lists :
    modes_after (read_resolution strtol isspace television.edid_modes_file) [] ≡ some (16 ∷ 4 ∷ [])
unfolding read_resolution
television_lists = refl

configure-Ends_example :
    Ends formats (16 ∷ 4 ∷ []) no_mode (configure formats platform television idle)
configure-Ends_example =
    configure-Ends formats platform television idle (16 ∷ 4 ∷ []) formats-Distinct television_opens
      television_lists

-- The display lists mode 90, which the table does not have, and the property asks for it.
divides_by_zero :
    configure formats platform
      (record television { edid_modes_file = some (57 ∷ 48 ∷ []); resolution_property = 90 })
      idle
    ≡ none
unfolding configure
divides_by_zero = refl

scaled_resolution-Downscales_example :
    let (w, h) = scaled_resolution 4 1440 2560 1280 720 in
    (w % 4 ≡ 0) × (h % 4 ≡ 0) × (w * h ≤ 1280 * 720 * 4)
scaled_resolution-Downscales_example =
    scaled_resolution-Downscales 4 1440 2560 1280 720 (omega arith) (omega arith) (omega arith)
      (omega arith) (omega arith)

fills_primary : scaled_resolution 4 1440 2560 1280 720 ≡ (2560, 1440)
unfolding scaled_resolution
fills_primary = refl
