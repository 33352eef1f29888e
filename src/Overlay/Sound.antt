-- ===== src/Overlay/Sound.antt =====
-- The invariant of the pipe book over every call, and the faults that it excludes (overlay.cpp).
use android_device_casio_dtx.Base.{
  ℕ, ◌≤◌, ◌≡◌, ◌≢◌, sym, ◌∙◌, Bool, true, false, ◌&&◌, some, arith, ltb, if◌then◌else◌, subst,
}
use android_device_casio_dtx.Overlay.State.{
  Overlay, PipeBook, PipeSpecs, Session, create_overlay, dpy_unused, ov_invalid, valid,
  destroy_book,
}
use android_device_casio_dtx.Overlay.Alloc.{Target, take_pipe, get_pipe}
use android_device_casio_dtx.Overlay.Round.{
  config_begin, config_done, end_session, end_all_sessions, clear,
}
use android_device_casio_dtx.Overlay.Sweep.{
  Slot, slot, is_garbage_slot, slot-config_begin, slot-config_done, slot-end_all_sessions,
  config_begin_num, config_done_num, end_all_sessions_num,
}
use android_device_casio_dtx.Overlay.Clear.{HasPipes, cleared, cleared_all, clear-slot}
use android_device_casio_dtx.Overlay.Pick.{Served, refused, granted, get_pipe-Served}

-- An entry belongs to a display exactly if it has a pipe object.
pub record IsKept (b : PipeBook) : Type 0 where
  pub owned : b.display ≢ dpy_unused → valid b ≡ true
  pub backed : valid b ≡ true → b.display ≢ dpy_unused

pub record IsSound (o : Overlay) : Type 0 where
  pub bound : o.num_pipes ≤ ov_invalid
  pub kept : (i : ℕ) → IsKept (o.book i)

-- Transport along what a sweep does to each entry.
by_slots :
    (o p : Overlay) (f : ℕ → Slot → Slot)
    → p.num_pipes ≡ o.num_pipes
    → ((i : ℕ) → slot i p ≡ f i (slot i o))
    → ((i : ℕ) (v : Slot) → IsKept v.entry → IsKept (f i v).entry)
    → IsSound o
    → IsSound p
by_slots o p f e at h v = record {
  bound = rw e v.bound;
  kept = λ i. subst (λ (t : Slot). IsKept t.entry) (sym (at i)) (h i (slot i o) (v.kept i));
}

pub config_begin-IsSound : (o : Overlay) → IsSound o → IsSound (config_begin o)
config_begin-IsSound o v =
    by_slots o _ (λ i s. if ltb i o.num_pipes then record s { used = false; taken = false } else s)
      (config_begin_num o) (slot-config_begin o) (λ i s k. ground arith) v

pub config_done-IsSound : (o : Overlay) → IsSound o → IsSound (config_done o)
unfolding destroy_book
config_done-IsSound o v =
    by_slots o _
      (λ i s.
        if ltb i o.num_pipes && is_garbage_slot s then record s { entry = destroy_book } else s)
      (config_done_num o) (slot-config_done o) (λ i s k. ground arith) v

pub end_all_sessions-IsSound : (o : Overlay) → IsSound o → IsSound (end_all_sessions o)
end_all_sessions-IsSound o v =
    by_slots o _ (λ i s. if ltb i o.num_pipes then record s { entry = end_session s.entry } else s)
      (end_all_sessions_num o) (slot-end_all_sessions o) (λ i s k. ground arith) v

IsSound-HasPipes : (o : Overlay) (dpy : ℕ) → IsSound o → dpy ≢ dpy_unused → HasPipes dpy o
IsSound-HasPipes o dpy v real i e = (v.kept i).owned (λ q. real (sym e ∙ q))

-- In a sound book clear of a real display does not fault, and the book stays sound.
pub clear-IsSound :
    (o : Overlay) (dpy : ℕ)
    → IsSound o
    → dpy ≢ dpy_unused
    → (clear dpy o ≡ some (cleared_all dpy o)) × IsSound (cleared_all dpy o)
unfolding destroy_book
clear-IsSound o dpy v real =
    let (done, num, at) = clear-slot dpy o real (IsSound-HasPipes o dpy v real) in
    (
      done,
      by_slots o _ (λ i s. if ltb i o.num_pipes then cleared dpy s else s) num at
          (λ i s k. ground arith) v,
    )

take_pipe-IsSound :
    (o : Overlay) (s : PipeSpecs) (d : ℕ)
    → s.dpy ≢ dpy_unused
    → IsSound o
    → IsSound (take_pipe o s d)
take_pipe-IsSound o s d real v = record { bound = v.bound; kept = λ i. ground (arith, v.kept i) }

Served-IsSound :
    (o : Overlay) (s : PipeSpecs) (r : Overlay × ℕ)
    → s.dpy ≢ dpy_unused
    → IsSound o
    → Served o s r
    → IsSound r.0
Served-IsSound o s r real v (refused e) = rw e v
Served-IsSound o s r real v (granted d e hi p q) = rw e (take_pipe-IsSound o s d real v)

pub get_pipe-IsSound :
    (target : Target) (o : Overlay) (s : PipeSpecs)
    → s.dpy ≢ dpy_unused
    → IsSound o
    → IsSound (get_pipe target s o).0
get_pipe-IsSound target o s real v =
    Served-IsSound o s _ real v (get_pipe-Served o s v.bound target)

pub create_overlay-IsSound :
    (rgb_pipes vg_pipes dma_pipes : ℕ) (is8x26 : Bool) (session : ℕ → Session)
    → IsSound (create_overlay rgb_pipes vg_pipes dma_pipes is8x26 session)
unfolding create_overlay
create_overlay-IsSound rgb_pipes vg_pipes dma_pipes is8x26 session = record {
  bound = ground arith;
  kept = λ i. ground arith;
}
