-- ===== src/Overlay/Sweep.antt =====
-- configBegin, configDone, endAllSessions and clear, entry by entry (overlay.cpp).
use android_device_casio_dtx.Base.{
  ℕ, ◌≡◌, refl, Bool, false, ◌&&◌, ◌||◌, not, arith, ltb, if◌then◌else◌, for_range_at_zero,
  for_range_keeps,
}
use android_device_casio_dtx.Overlay.State.{
  Overlay, PipeBook, destroy, destroy_book, in_progress, is_ended,
}
use android_device_casio_dtx.Overlay.Round.{
  config_begin, config_done, is_garbage, end_all_sessions, end_session,
}

-- What the book holds of one pipe.
pub record Slot : Type 0 where
  pub entry : PipeBook
  pub used : Bool
  pub taken : Bool

abbrev pub slot : ℕ → Overlay → Slot
slot i o = record { entry = o.book i; used = o.usage i; taken = o.allocated i }

abbrev pub is_garbage_slot : Slot → Bool
is_garbage_slot s = not s.used && not (in_progress s.entry.session) || is_ended s.entry.session

-- After configBegin no pipe of the book is used or allocated; the entries are as they were.
pub slot-config_begin :
    (o : Overlay) (i : ℕ)
    → slot i (config_begin o) ≡ (
        if ltb i o.num_pipes
        then record { entry = o.book i; used = false; taken = false }
        else slot i o)
unfolding config_begin
slot-config_begin o i =
    for_range_at_zero slot (λ j v. record v { used = false; taken = false }) _
      (λ i j s. ground arith) o.num_pipes i o

pub slot-config_done :
    (o : Overlay) (i : ℕ)
    → slot i (config_done o) ≡ (
        if ltb i o.num_pipes && is_garbage_slot (slot i o)
        then record { entry = destroy_book; used = o.usage i; taken = o.allocated i }
        else slot i o)
unfolding config_done destroy
slot-config_done o i = ground (
  arith,
  for_range_at_zero slot (λ j v. if is_garbage_slot v then record v { entry = destroy_book } else v)
      (λ i s. if is_garbage s i then destroy i s else s) (λ i j s. ground arith) o.num_pipes i o,
)

-- endAllSessions ends the running sessions of the pipes that exist, and changes nothing else.
pub slot-end_all_sessions :
    (o : Overlay) (i : ℕ)
    → slot i (end_all_sessions o) ≡ (
        if ltb i o.num_pipes
        then record { entry = end_session (o.book i); used = o.usage i; taken = o.allocated i }
        else slot i o)
unfolding end_all_sessions
slot-end_all_sessions o i =
    for_range_at_zero slot (λ j v. record v { entry = end_session v.entry }) _
      (λ i j s. ground arith) o.num_pipes i o

pub config_begin_num : (o : Overlay) → (config_begin o).num_pipes ≡ o.num_pipes
unfolding config_begin
config_begin_num o = for_range_keeps (λ s. s.num_pipes) _ (λ i s. refl) o.num_pipes 0 o

pub config_done_num : (o : Overlay) → (config_done o).num_pipes ≡ o.num_pipes
unfolding config_done destroy
config_done_num o =
    for_range_keeps (λ s. s.num_pipes) (λ i s. if is_garbage s i then destroy i s else s)
      (λ i s. ground arith) o.num_pipes 0 o

pub end_all_sessions_num : (o : Overlay) → (end_all_sessions o).num_pipes ≡ o.num_pipes
unfolding end_all_sessions
end_all_sessions_num o = for_range_keeps (λ s. s.num_pipes) _ (λ i s. refl) o.num_pipes 0 o
