-- ===== src/Overlay/Calls.antt =====
-- Any sequence of calls on the pipe book (overlay.cpp): the invariant holds throughout, and no
-- call faults that names a pipe of the book and a real display.
use android_device_casio_dtx.Base.{
  ℕ, ◌<◌, ◌≡◌, ◌≢◌, inl, inr, refl, Bool, true, Option, none, some, List, [], ◌∷◌, arith, ◌==◌,
  if◌then◌else◌, Option-cases, Bool-cases,
}
use android_device_casio_dtx.Ctrl.{Hardware, MdpOverlay, MdpCtrl, set, play}
use android_device_casio_dtx.Overlay.State.{
  Overlay, GenericPipe, PipeSpecs, dpy_unused, valid, set_dma_mode,
}
use android_device_casio_dtx.Overlay.Alloc.{Target, get_pipe}
use android_device_casio_dtx.Overlay.Round.{
  config_begin, config_done, reserve_pipe, start_session, end_all_sessions, on_ctrl, commit,
  queue_buffer, clear, validate_and_set, write_back, committed_pipes, ov_infos, Driver,
  checked_pipe, put_pipe,
}
use android_device_casio_dtx.Overlay.Clear.{cleared_all}
use android_device_casio_dtx.Overlay.Sound.{
  IsSound, config_begin-IsSound, config_done-IsSound, end_all_sessions-IsSound, clear-IsSound,
  get_pipe-IsSound,
}

-- The calls of the class; `configure` stands for a setter of a pipe's `MdpCtrl`.
pub data Call : Type 0 where
  begin done end_sessions : Call
  request : Target → PipeSpecs → Call
  reserve session mode release : ℕ → Call
  configure : (MdpCtrl → MdpCtrl) → ℕ → Call
  commits : Hardware → ℕ → Call
  queue : Bool → ℕ → ℕ → ℕ → Call
  validates : Driver → ℕ → Call

abbrev pub state : Option (Overlay × Bool) → Option Overlay
state none = none
state (some (o, ok)) = some o

unfoldable pub step : Call → Overlay → Option Overlay
step begin o = some (config_begin o)
step done o = some (config_done o)
step end_sessions o = some (end_all_sessions o)
step (request target s) o = some (get_pipe target s o).0
step (reserve id) o = some (reserve_pipe id o).0
step (session dest) o = some (start_session dest o)
step (mode m) o = some (set_dma_mode m o)
step (release dpy) o = clear dpy o
step (configure f dest) o = on_ctrl f dest o
step (commits hw dest) o = state (commit hw dest o)
step (queue played fd offset dest) o = state (queue_buffer played fd offset dest o)
step (validates driver dpy) o = some (validate_and_set driver dpy o).0

-- A dest that is in the book and has its pipe.
abbrev pub IsDest : Overlay → ℕ → Type 0
IsDest o d = (d < o.num_pipes) × (valid (o.book d) ≡ true)

-- What the caller owes.
abbrev pub IsLegal : Call → Overlay → Type 0
IsLegal (request target s) o = s.dpy ≢ dpy_unused
IsLegal (release dpy) o = dpy ≢ dpy_unused
IsLegal (configure f dest) o = IsDest o dest
IsLegal (commits hw dest) o = IsDest o dest
IsLegal (queue played fd offset dest) o = IsDest o dest
IsLegal _ o = Unit {0}

-- A call that returns, to a sound book.
abbrev pub ReturnsSound : Option Overlay → Type 0
ReturnsSound r = (o' : Overlay) × (r ≡ some o') × IsSound o'

checked_some : (o : Overlay) (d : ℕ) → IsDest o d → (p : GenericPipe) × (checked_pipe o d ≡ some p)
checked_some o d h = elim (Option-cases (o.book d).pipe) [
  | inl e ↦ absurd (ground arith)
  | inr (p, e) ↦ (p, ground arith)
]

-- A pipe object put in the place of one.
put_pipe-IsSound :
    (o : Overlay) (d : ℕ) (p : GenericPipe) → IsDest o d → IsSound o → IsSound (put_pipe o d p)
put_pipe-IsSound o d p h v = record {
  bound = v.bound;
  kept = λ i. ground (arith, v.kept i, v.kept d);
}

on_ctrl-ReturnsSound :
    (f : MdpCtrl → MdpCtrl) (d : ℕ) (o : Overlay)
    → IsDest o d
    → IsSound o
    → ReturnsSound (on_ctrl f d o)
unfolding on_ctrl
on_ctrl-ReturnsSound f d o h v =
    let (p, e) = checked_some o d h in
    let p' = record p { ctrl = f p.ctrl } in
    (put_pipe o d p', rw (e, on_ctrl) refl, put_pipe-IsSound o d p' h v)

IsSound-usage : (o : Overlay) (u : ℕ → Bool) → IsSound o → IsSound (record o { usage = u })
IsSound-usage o u v = record { bound = v.bound; kept = v.kept }

commit-ReturnsSound :
    (hw : Hardware) (d : ℕ) (o : Overlay)
    → IsDest o d
    → IsSound o
    → ReturnsSound (state (commit hw d o))
unfolding commit set
commit-ReturnsSound hw d o h v =
    let (p, e) = checked_some o d h in
    let o' = put_pipe o d (record p { ctrl = (set hw p.ctrl).0 }) in
    (
      record o' { usage = λ j. if d == j then true else o.usage j },
      ground arith,
      IsSound-usage o' _ (put_pipe-IsSound o d _ h v),
    )

queue_buffer-ReturnsSound :
    (played : Bool) (fd offset d : ℕ) (o : Overlay)
    → IsDest o d
    → IsSound o
    → ReturnsSound (state (queue_buffer played fd offset d o))
unfolding queue_buffer
queue_buffer-ReturnsSound played fd offset d o h v =
    let (p, e) = checked_some o d h in
    let data' = (play played fd offset (record (p.mdp_data) { id = p.ctrl.ov_info.id })).0 in
    let o' = put_pipe o d (record p { mdp_data = data' }) in
    elim (Bool-cases (o.usage d)) [
      | inl u ↦ (o', rw (e, queue_buffer) (rw u refl), put_pipe-IsSound o d _ h v)
      | inr u ↦ (o, rw (e, queue_buffer) (rw u refl), v)
    ]

write_back-IsSound :
    (is : List ℕ) (infos : List MdpOverlay) (o : Overlay)
    → IsSound o
    → IsSound (write_back is infos o)
unfolding write_back
write_back-IsSound [] infos o v = v
write_back-IsSound (i ∷ is) [] o v = v
write_back-IsSound (i ∷ is) (info ∷ infos) o v =
    write_back-IsSound is infos _
      (record { bound = v.bound; kept = λ j. ground (arith, v.kept j, v.kept i) })

validate_and_set-IsSound :
    (driver : Driver) (dpy : ℕ) (o : Overlay)
    → IsSound o
    → IsSound (validate_and_set driver dpy o).0
unfolding validate_and_set
validate_and_set-IsSound driver dpy o v = hand_over (committed_pipes dpy o)
  where
    hand_over :
        (is : List ℕ)
        → IsSound
            (elim is as (λ _. Overlay × Bool) [
              | [] ↦ (o, true)
              | j ∷ js ↦
                  let (infos, ok) = driver (ov_infos o (j ∷ js)) in
                  (write_back (j ∷ js) infos o, ok)
            ]).0
    hand_over [] = v
    hand_over (j ∷ js) = write_back-IsSound (j ∷ js) _ o v

reserve_pipe-IsSound : (id : ℕ) (o : Overlay) → IsSound o → IsSound (reserve_pipe id o).0
unfolding reserve_pipe
reserve_pipe-IsSound id o v = record { bound = v.bound; kept = v.kept }

start_session-IsSound : (d : ℕ) (o : Overlay) → IsSound o → IsSound (start_session d o)
unfolding start_session
start_session-IsSound d o v = record {
  bound = v.bound;
  kept = λ i. ground (arith, v.kept i, v.kept d);
}

set_dma_mode-IsSound : (m : ℕ) (o : Overlay) → IsSound o → IsSound (set_dma_mode m o)
unfolding set_dma_mode
set_dma_mode-IsSound m o v = ground arith

-- From a sound book every legal call returns, and leaves a sound book.
pub step-ReturnsSound : (c : Call) (o : Overlay) → IsLegal c o → IsSound o → ReturnsSound (step c o)
unfolding step
step-ReturnsSound begin o h v = (_, refl, config_begin-IsSound o v)
step-ReturnsSound done o h v = (_, refl, config_done-IsSound o v)
step-ReturnsSound end_sessions o h v = (_, refl, end_all_sessions-IsSound o v)
step-ReturnsSound (request target s) o h v = (_, refl, get_pipe-IsSound target o s h v)
step-ReturnsSound (reserve id) o h v = (_, refl, reserve_pipe-IsSound id o v)
step-ReturnsSound (session dest) o h v = (_, refl, start_session-IsSound dest o v)
step-ReturnsSound (mode m) o h v = (_, refl, set_dma_mode-IsSound m o v)
step-ReturnsSound (release dpy) o h v =
    let (e, s) = clear-IsSound o dpy v h in (cleared_all dpy o, e, s)
step-ReturnsSound (configure f dest) o h v = on_ctrl-ReturnsSound f dest o h v
step-ReturnsSound (commits hw dest) o h v = commit-ReturnsSound hw dest o h v
step-ReturnsSound (queue played fd offset dest) o h v =
    queue_buffer-ReturnsSound played fd offset dest o h v
step-ReturnsSound (validates driver dpy) o h v = (_, refl, validate_and_set-IsSound driver dpy o v)

-- A history of legal calls that return.
pub data Runs (o : Overlay) : Overlay → Type 0 where
  start : Runs o o
  next : {p q : Overlay} (c : Call) → Runs o p → IsLegal c p → step c p ≡ some q → Runs o q
