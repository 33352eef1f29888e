-- ===== src/Overlay/Round.antt =====
-- A drawing round of `Overlay` (overlay.cpp): configBegin, the pipe setters, commit, queueBuffer,
-- validateAndSet, clear and configDone.
-- `none` is a fault. `validate` aborts where OVERLAY_HAS_ASSERT is set; elsewhere it only logs, and
-- the call goes through a NULL pipe or past the book.
use android_device_casio_dtx.Base.{
  ℕ, zero, suc, ◌+◌, Bool, true, false, ◌&&◌, ◌||◌, not, Option, none, some, List, [], ◌∷◌, ltb,
  ◌==◌, if◌then◌else◌, update, find_index, for_range, filter_index,
}
use android_device_casio_dtx.Utils.{Dim}
use android_device_casio_dtx.Ctrl.{
  Hardware, MdpOverlay, MdpCtrl, PipeArgs, new_request, set_source, set_crop, set_color,
  set_position, set_transform, set_pipe_type, set, play,
}
use android_device_casio_dtx.Overlay.State.{
  Overlay, PipeBook, GenericPipe, start, end, ov_invalid, valid, in_progress, is_ended, destroy,
}

unfoldable pub config_begin : Overlay → Overlay
config_begin o =
    for_range o.num_pipes 0
      (λ i s. record s { usage = update s.usage i false; allocated = update s.allocated i false }) o

-- What configDone collects at an index.
abbrev pub is_garbage : Overlay → ℕ → Bool
is_garbage o i =
    not (o.usage i) && not (in_progress (o.book i).session) || is_ended (o.book i).session

unfoldable pub config_done : Overlay → Overlay
config_done o =
    let swept = for_range o.num_pipes 0 (λ i s. if is_garbage s i then destroy i s else s) o in
    record swept { last_usage = swept.usage }

abbrev pub pipe_id : PipeBook → ℕ
pipe_id b = elim b.pipe [ none ↦ new_request | some p ↦ p.ctrl.ov_info.id ]

unfoldable pub get_dest : ℕ → Overlay → ℕ
get_dest id o =
    find_index o.num_pipes 0 (λ i. valid (o.book i) && pipe_id (o.book i) == id) ov_invalid

unfoldable pub reserve_pipe : ℕ → Overlay → Overlay × ℕ
unfolding get_dest
reserve_pipe id o =
    let dest = get_dest id o in (record o { allocated = update o.allocated dest true }, dest)

unfoldable pub start_session : ℕ → Overlay → Overlay
start_session dest o = record o {
  book = update o.book dest (record (o.book dest) { session = start });
}

abbrev pub end_session : PipeBook → PipeBook
end_session b = if valid b && in_progress b.session then record b { session = end } else b

unfoldable pub end_all_sessions : Overlay → Overlay
end_all_sessions o =
    for_range o.num_pipes 0 (λ i s. record s { book = update s.book i (end_session (s.book i)) }) o

-- The pipe behind a dest that passes `validate`.
abbrev pub checked_pipe : Overlay → ℕ → Option GenericPipe
checked_pipe o dest = if ltb dest o.num_pipes then (o.book dest).pipe else none

abbrev pub put_pipe : Overlay → ℕ → GenericPipe → Overlay
put_pipe o dest p = record o { book = update o.book dest (record (o.book dest) { pipe = some p }) }

-- The setters hand their argument to the pipe's `MdpCtrl`.
unfoldable pub on_ctrl : (MdpCtrl → MdpCtrl) → ℕ → Overlay → Option Overlay
on_ctrl f dest o = elim (checked_pipe o dest) [
  | none ↦ none
  | some p ↦ some (put_pipe o dest (record p { ctrl = f p.ctrl }))
]

unfoldable pub set_pipe_source : PipeArgs → ℕ → Overlay → Option Overlay
unfolding on_ctrl
set_pipe_source args dest o =
    on_ctrl (λ c. set_source args (set_pipe_type (o.pipe_type_lut dest) c)) dest o

unfoldable pub set_pipe_crop : Dim → ℕ → Overlay → Option Overlay
unfolding on_ctrl
set_pipe_crop d = on_ctrl (set_crop d)

unfoldable pub set_pipe_color : ℕ → ℕ → Overlay → Option Overlay
unfolding on_ctrl
set_pipe_color color = on_ctrl (set_color color)

unfoldable pub set_pipe_position : Dim → ℕ → Overlay → Option Overlay
unfolding on_ctrl
set_pipe_position d = on_ctrl (set_position d)

unfoldable pub set_pipe_transform : Hardware → ℕ → ℕ → Overlay → Option Overlay
unfolding on_ctrl
set_pipe_transform hw orient = on_ctrl (set_transform hw orient)

-- One index of clear: getPipeId goes through the pipe.
unfoldable pub clear_step : ℕ → ℕ → Overlay → Option Overlay
clear_step dpy i o =
    let freed = record o {
      usage = update o.usage i false;
      allocated = update o.allocated i false;
    } in
    if (o.book i).display == dpy
    then elim (o.book i).pipe [
      | none ↦ none
      | some p ↦ some (if p.ctrl.ov_info.id == new_request then destroy i freed else freed)
    ]
    else some o

unfoldable pub clear_from : ℕ → ℕ → ℕ → Overlay → Option Overlay
clear_from zero i dpy o = some o
clear_from (suc n) i dpy o = elim (clear_step dpy i o) [
  | none ↦ none
  | some o' ↦ clear_from n (i + 1) dpy o'
]

unfoldable pub clear : ℕ → Overlay → Option Overlay
unfolding clear_from
clear dpy o = clear_from o.num_pipes 0 dpy o

unfoldable pub commit : Hardware → ℕ → Overlay → Option (Overlay × Bool)
commit hw dest o = elim (checked_pipe o dest) [
  | none ↦ none
  | some p ↦
      let (ctrl, ok) = set hw p.ctrl in
      let o' = put_pipe o dest (record p { ctrl = ctrl }) in
      if ok
      then some (record o' { usage = update o'.usage dest true }, true)
      else elim (clear (o.book dest).display o') [ none ↦ none | some o'' ↦ some (o'', false) ]
]

-- `played` is the driver's answer to the buffer.
unfoldable pub queue_buffer : Bool → ℕ → ℕ → ℕ → Overlay → Option (Overlay × Bool)
queue_buffer played fd offset dest o = elim (checked_pipe o dest) [
  | none ↦ none
  | some p ↦
      let (mdp_data, ok) = play played fd offset (record (p.mdp_data) { id = p.ctrl.ov_info.id }) in
      if o.usage dest
      then some (put_pipe o dest (record p { mdp_data = mdp_data }), ok)
      else some (o, false)
]

-- The pipes of a display that validateAndSet hands over, and what the driver writes back.
unfoldable pub committed_pipes : ℕ → Overlay → List ℕ
committed_pipes dpy o =
    filter_index o.num_pipes 0 (λ i. o.usage i && valid (o.book i) && (o.book i).display == dpy)

abbrev pub ov_infos : Overlay → List ℕ → List MdpOverlay
ov_infos o [] = []
ov_infos o (i ∷ is) = elim (o.book i).pipe [
  | none ↦ ov_infos o is
  | some p ↦ p.ctrl.ov_info ∷ ov_infos o is
]

abbrev pub with_info : MdpOverlay → PipeBook → PipeBook
with_info info b = elim b.pipe [
  | none ↦ b
  | some p ↦ record b { pipe = some (record p { ctrl = record (p.ctrl) { ov_info = info } }) }
]

unfoldable pub write_back : List ℕ → List MdpOverlay → Overlay → Overlay
write_back [] infos o = o
write_back (i ∷ is) [] o = o
write_back (i ∷ is) (info ∷ infos) o =
    write_back is infos (record o { book = update o.book i (with_info info (o.book i)) })

-- libscale's programScale and the ioctl, as one function: the structures after it, and whether it
-- reported no error.
abbrev pub Driver : Type 0
Driver = List MdpOverlay → List MdpOverlay × Bool

unfoldable pub validate_and_set : Driver → ℕ → Overlay → Overlay × Bool
validate_and_set driver dpy o = elim (committed_pipes dpy o) [
  | [] ↦ (o, true)
  | i ∷ is ↦ let (infos, ok) = driver (ov_infos o (i ∷ is)) in (write_back (i ∷ is) infos o, ok)
]
