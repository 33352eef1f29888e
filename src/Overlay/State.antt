-- ===== src/Overlay/State.antt =====
-- The state of `Overlay` (overlay.h): the pipe book, the bitmaps of `PipeBook`, and the queries.
-- An array and a bitmap are functions of the index; entries from `num_pipes` on are not used.
-- A `GenericPipe` (pipes/overlayGenPipe.cpp) holds the two halves that Ctrl.antt models.
use android_device_casio_dtx.Base.{
  ℕ, zero, suc, ◌+◌, ◌%◌, Bool, true, false, ◌&&◌, ◌||◌, not, Option, none, some, List, [], ◌++◌,
  ltb, leb, ◌==◌, if◌then◌else◌, update, is_some, find_index, count_index,
}
use android_device_casio_dtx.Ctrl.{
  MdpCtrl, MdpData, PipeType, rgb, vg, dma, any, create, create_data, close,
}

pub record GenericPipe : Type 0 where
  pub dpy : ℕ
  pub ctrl : MdpCtrl
  pub mdp_data : MdpData

unfoldable pub create_pipe : ℕ → GenericPipe
create_pipe dpy = record { dpy = dpy; ctrl = create dpy; mdp_data = create_data }

-- DPY_PRIMARY is 0, DPY_EXTERNAL 1, DPY_WRITEBACK 2.
abbrev pub dpy_unused : ℕ
dpy_unused = 3

-- MIXER_LEFT is 0, MIXER_RIGHT 1.
abbrev pub mixer_unused : ℕ
mixer_unused = 2

abbrev pub format_yuv : ℕ
format_yuv = 0

abbrev pub format_rgb : ℕ
format_rgb = 1

abbrev pub format_none : ℕ
format_none = 2

abbrev pub dma_block_mode : ℕ
dma_block_mode = 0

abbrev pub dma_line_mode : ℕ
dma_line_mode = 1

-- OV_INVALID, which is also OV_MAX.
abbrev pub ov_invalid : ℕ
ov_invalid = 10

pub record PipeSpecs : Type 0 where
  pub format_class : ℕ
  pub needs_scaling : Bool
  pub fb : Bool
  pub dpy : ℕ
  pub mixer : ℕ
  pub num_active_displays : ℕ

-- The `Session` of a reserved pipe: NONE, START, END.
pub data Session : Type 0 where
  inactive start end : Session

pub record PipeBook : Type 0 where
  pub pipe : Option GenericPipe
  pub display : ℕ
  pub mixer : ℕ
  pub format_type : ℕ
  pub session : Session

pub record Overlay : Type 0 where
  pub num_pipes : ℕ
  pub pipe_type_lut : ℕ → PipeType
  pub book : ℕ → PipeBook
  pub usage : ℕ → Bool
  pub last_usage : ℕ → Bool
  pub allocated : ℕ → Bool
  pub dma_mode : ℕ
  pub dma_multiplexing : Bool
  -- The overlay ids given to unsetOverlay, the latest first.
  pub unset : List ℕ

abbrev pub type_index : PipeType → ℕ
type_index rgb = 0
type_index vg = 1
type_index dma = 2
type_index any = 3

abbrev pub same_type : PipeType → PipeType → Bool
same_type t u = type_index t == type_index u

abbrev pub valid : PipeBook → Bool
valid b = is_some b.pipe

abbrev pub in_progress : Session → Bool
in_progress start = true
in_progress _ = false

abbrev pub is_ended : Session → Bool
is_ended end = true
is_ended _ = false

-- PipeBook::init; the session is left as it was.
unfoldable pub init_book : Session → PipeBook
init_book session = record {
  pipe = none;
  display = dpy_unused;
  mixer = mixer_unused;
  format_type = format_none;
  session = session;
}

-- PipeBook::destroy; the destructor of the pipe closes its `MdpCtrl`.
unfoldable pub destroy_book : PipeBook
destroy_book = record {
  pipe = none;
  display = dpy_unused;
  mixer = mixer_unused;
  format_type = format_none;
  session = inactive;
}

abbrev pub closed_ids : Option GenericPipe → List ℕ
closed_ids none = []
closed_ids (some p) = close p.ctrl

unfoldable pub destroy : ℕ → Overlay → Overlay
unfolding destroy_book
destroy i o = record o {
  book = update o.book i destroy_book;
  unset = closed_ids (o.book i).pipe ++ o.unset;
}

-- One type's run of the lookup table, from an index on.
unfoldable pub fill_type : ℕ → ℕ → PipeType → (ℕ → PipeType) → ℕ → PipeType
fill_type zero index t lut = lut
fill_type (suc n) index t lut = fill_type n (index + 1) t (update lut index t)

-- The table as initOverlay leaves it; statically its first entry is ANY, the others 0, or RGB.
unfoldable pub init_lut : ℕ → ℕ → ℕ → ℕ → PipeType
unfolding fill_type
init_lut rgb_pipes vg_pipes dma_pipes =
    let lut0 = fill_type rgb_pipes 0 rgb (λ i. if i == 0 then any else rgb) in
    let lut1 = fill_type vg_pipes rgb_pipes vg lut0 in
    fill_type dma_pipes (rgb_pipes + vg_pipes) dma lut1

-- The constructor after initOverlay. What the sessions hold before is not determined.
unfoldable pub create_overlay : ℕ → ℕ → ℕ → Bool → (ℕ → Session) → Overlay
unfolding init_lut init_book
create_overlay rgb_pipes vg_pipes dma_pipes is8x26 session =
    let total = (rgb_pipes + vg_pipes + dma_pipes) % 256 in
    record {
      num_pipes = if leb total ov_invalid then total else ov_invalid;
      pipe_type_lut = init_lut rgb_pipes vg_pipes dma_pipes;
      book = λ i. init_book (session i);
      usage = λ i. false;
      last_usage = λ i. false;
      allocated = λ i. false;
      dma_mode = dma_line_mode;
      dma_multiplexing = is8x26;
      unset = [];
    }

unfoldable pub set_dma_mode : ℕ → Overlay → Overlay
set_dma_mode mode o =
    if mode == dma_line_mode || mode == dma_block_mode then record o { dma_mode = mode } else o

-- A DMA pipe while DMA runs in block mode.
abbrev pub dma_blocked : Overlay → ℕ → Bool
dma_blocked o i = o.dma_mode == dma_block_mode && same_type (o.pipe_type_lut i) dma

abbrev pub free_for_display : Overlay → ℕ → ℕ → Bool
free_for_display o dpy i = (o.book i).display == dpy_unused || (o.book i).display == dpy

-- availablePipes(dpy, mixer), availablePipes(dpy) and availablePipes(dpy, type).
unfoldable pub available_pipes_mixer : Overlay → ℕ → ℕ → ℕ
available_pipes_mixer o dpy mixer = count_index o.num_pipes 0 λ i.
    free_for_display o dpy i
    && ((o.book i).mixer == mixer_unused || (o.book i).mixer == mixer)
    && not (o.allocated i)
    && not (dma_blocked o i)

unfoldable pub available_pipes : Overlay → ℕ → ℕ
available_pipes o dpy =
    count_index o.num_pipes 0
      λ i. free_for_display o dpy i && not (o.allocated i) && not (dma_blocked o i)

unfoldable pub available_pipes_type : Overlay → ℕ → PipeType → ℕ
available_pipes_type o dpy t =
    count_index o.num_pipes 0
      λ i. free_for_display o dpy i && not (o.allocated i) && same_type t (o.pipe_type_lut i)

unfoldable pub is_pipe_type_attached : Overlay → PipeType → Bool
is_pipe_type_attached o t =
    ltb
      (find_index o.num_pipes 0
        (λ i. same_type t (o.pipe_type_lut i) && not ((o.book i).display == dpy_unused))
        o.num_pipes)
      o.num_pipes
