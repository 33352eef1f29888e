-- ===== src/Overlay/Examples.antt =====
-- The theorems on the pipe book at a chip with three RGB, one VG and one DMA pipe.
use android_device_casio_dtx.Base.{
  ◌≤◌, ◌≡◌, refl, true, false, List, [], ◌∷◌, some, arith, find_index, map,
}
use android_device_casio_dtx.Ctrl.{MdpOverlay}
use android_device_casio_dtx.Overlay.State.{
  Overlay, PipeSpecs, inactive, end, create_overlay, create_pipe,
}
use android_device_casio_dtx.Overlay.Alloc.{Target, get_pipe, next_pipe}
use android_device_casio_dtx.Overlay.Round.{Driver}
use android_device_casio_dtx.Overlay.Serve.{Extends, serve, serve-Extends}
use android_device_casio_dtx.Overlay.Clear.{cleared, cleared_all, clear-slot}
use android_device_casio_dtx.Overlay.Sweep.{slot}

abbrev board : Overlay
board = create_overlay 3 1 1 false (λ i. inactive)

abbrev generic : Target
generic = record { is8x26 = false; is8x16 = false; is8x39 = false; is8994 = false }

abbrev video : PipeSpecs
video = record {
  format_class = 0;
  needs_scaling = false;
  fb = false;
  dpy = 0;
  mixer = 0;
  num_active_displays = 1;
}

abbrev scaled_app : PipeSpecs
scaled_app = record {
  format_class = 1;
  needs_scaling = true;
  fb = false;
  dpy = 0;
  mixer = 0;
  num_active_displays = 1;
}

board_bound : board.num_pipes ≤ 10
unfolding create_overlay
board_bound = omega arith

-- The video layer gets the only VG pipe, the first app layer the first RGB pipe; a second video
-- layer gets none.
serve_runs : (serve generic (video ∷ scaled_app ∷ video ∷ []) board).1 ≡ 3 ∷ 0 ∷ 10 ∷ []
unfolding serve get_pipe next_pipe find_index create_overlay
serve_runs = refl

abbrev layers : List PipeSpecs
layers = video ∷ scaled_app ∷ scaled_app ∷ []

serve-Extends_example : Extends board (serve generic layers board).0
serve-Extends_example = serve-Extends generic layers board board_bound

-- A committed pipe whose session has ended.
abbrev ended_book : Overlay
ended_book = record board {
  book = λ i. record {
    pipe = some (create_pipe 0);
    display = 0;
    mixer = 0;
    format_type = 1;
    session = end;
  };
  usage = λ i. true;
}

clear-slot_example : slot 3 (cleared_all 0 ended_book) ≡ cleared 0 (slot 3 ended_book)
unfolding create_overlay
clear-slot_example = (clear-slot 0 ended_book (omega arith) (λ i e. refl)).2 3

-- A driver that gives every pipe the id 7.
abbrev names_seven : Driver
names_seven infos =
    (map {A = MdpOverlay} {B = MdpOverlay} (λ info. record info { id = 7 }) infos, true)
