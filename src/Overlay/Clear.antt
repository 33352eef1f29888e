-- ===== src/Overlay/Clear.antt =====
-- Overlay::clear (overlay.cpp): the release of a display's pipes.
use android_device_casio_dtx.Base.{
  ℕ, zero, suc, ◌+◌, ◌≡◌, ◌≢◌, refl, true, false, some, arith, ltb, ◌==◌, if◌then◌else◌, for_range,
  for_range_at_zero, for_range_keeps,
}
use android_device_casio_dtx.Ctrl.{new_request}
use android_device_casio_dtx.Overlay.State.{Overlay, dpy_unused, destroy, destroy_book, valid}
use android_device_casio_dtx.Overlay.Round.{clear, clear_from, clear_step, pipe_id}
use android_device_casio_dtx.Overlay.Sweep.{Slot, slot}

-- Every entry of the display has its pipe object.
abbrev pub HasPipes : ℕ → Overlay → Type 0
HasPipes dpy o = (i : ℕ) → (o.book i).display ≡ dpy → valid (o.book i) ≡ true

-- An entry after clear: one of the display is free for the round, and is emptied if the driver
-- never gave it an id.
abbrev pub cleared : ℕ → Slot → Slot
cleared dpy v =
    if v.entry.display == dpy
    then record {
      entry = if pipe_id v.entry == new_request then destroy_book else v.entry;
      used = false;
      taken = false;
    }
    else v

abbrev pub cleared_at : ℕ → ℕ → Overlay → Overlay
cleared_at dpy i o =
    let freed = record o {
      usage = λ j. if i == j then false else o.usage j;
      allocated = λ j. if i == j then false else o.allocated j;
    } in
    if (o.book i).display == dpy
    then if pipe_id (o.book i) == new_request then destroy i freed else freed
    else o

clear_step-some :
    (dpy i : ℕ) (o : Overlay) → HasPipes dpy o → clear_step dpy i o ≡ some (cleared_at dpy i o)
unfolding clear_step
clear_step-some dpy i o h = ground (arith, h i)

cleared_at-HasPipes :
    (dpy i : ℕ) (o : Overlay)
    → dpy ≢ dpy_unused
    → HasPipes dpy o
    → HasPipes dpy (cleared_at dpy i o)
unfolding destroy destroy_book
cleared_at-HasPipes dpy i o real h j e = ground (arith, h j)

clear_from-some :
    (n i dpy : ℕ) (o : Overlay)
    → dpy ≢ dpy_unused
    → HasPipes dpy o
    → clear_from n i dpy o ≡ some (for_range n i (cleared_at dpy) o)
unfolding clear_from for_range
clear_from-some zero i dpy o real h = refl
clear_from-some (suc n) i dpy o real h =
    rw (clear_step-some dpy i o h, clear_from)
      (clear_from-some n (i + 1) dpy (cleared_at dpy i o) real (cleared_at-HasPipes dpy i o real h))

-- The book after a clear that does not fault.
pub cleared_all : ℕ → Overlay → Overlay
cleared_all dpy o = for_range o.num_pipes 0 (cleared_at dpy) o

-- Where every entry of a real display has its pipe, clear does not fault; it frees exactly the pipes
-- of the display for the round, and empties those that the driver does not know.
pub clear-slot :
    (dpy : ℕ) (o : Overlay)
    → dpy ≢ dpy_unused
    → HasPipes dpy o
    → (clear dpy o ≡ some (cleared_all dpy o))
      × ((cleared_all dpy o).num_pipes ≡ o.num_pipes)
      × ((i : ℕ)
          → slot i (cleared_all dpy o)
            ≡ (if ltb i o.num_pipes then cleared dpy (slot i o) else slot i o))
unfolding clear cleared_all destroy
clear-slot dpy o real h = (
  clear_from-some o.num_pipes 0 dpy o real h,
  for_range_keeps (λ s. s.num_pipes) (cleared_at dpy) (λ i s. ground arith) o.num_pipes 0 o,
  λ i.
      for_range_at_zero slot (λ j. cleared dpy) (cleared_at dpy) (λ i j s. ground arith) o.num_pipes
        i o,
)
