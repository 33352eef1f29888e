-- ===== src/Overlay/Serve.antt =====
-- The requests of a drawing round, one after another, as the compositor makes them between
-- configBegin and configDone (getPipe of overlay.cpp).
use android_device_casio_dtx.Base.{
  ℕ, ◌+◌, ◌≤◌, ◌≡◌, ◌≢◌, ◌⊎◌, refl, sym, ◌∙◌, Bool, true, false, ◌&&◌, not, List, [], ◌∷◌, arith,
  All, count_index, count_index_one,
}
use android_device_casio_dtx.Ctrl.{any}
use android_device_casio_dtx.Overlay.State.{
  Overlay, PipeSpecs, dpy_unused, ov_invalid, available_pipes, dma_blocked, free_for_display,
}
use android_device_casio_dtx.Overlay.Alloc.{Target, can_take, take_pipe, get_pipe}
use android_device_casio_dtx.Overlay.Pick.{Served, refused, granted, get_pipe-Served}

-- The dests of a list of requests, in order.
unfoldable pub serve : Target → List PipeSpecs → Overlay → Overlay × List ℕ
serve target [] o = (o, [])
serve target (s ∷ ss) o =
    let (o1, d) = get_pipe target s o in let (o2, ds) = serve target ss o1 in (o2, d ∷ ds)

-- What requests leave of a book: owners, allocations and usage are not taken away.
pub record Extends (o o' : Overlay) : Type 0 where
  pub num_pipes : o'.num_pipes ≡ o.num_pipes
  pub owner : (i : ℕ) → (o.book i).display ≢ dpy_unused → (o'.book i).display ≡ (o.book i).display
  pub allocated : (i : ℕ) → o.allocated i ≡ true → o'.allocated i ≡ true
  pub usage : o'.usage ≡ o.usage

Extends-refl : (o : Overlay) → Extends o o
Extends-refl o = record {
  num_pipes = refl;
  owner = λ i h. refl;
  allocated = λ i h. h;
  usage = refl;
}

Extends-trans : (o p q : Overlay) → Extends o p → Extends p q → Extends o q
Extends-trans o p q e f = record {
  num_pipes = f.num_pipes ∙ e.num_pipes;
  owner = λ i h. let first = e.owner i h in f.owner i (λ u. h (sym first ∙ u)) ∙ first;
  allocated = λ i h. f.allocated i (e.allocated i h);
  usage = f.usage ∙ e.usage;
}

take_pipe-Extends :
    (o : Overlay) (s : PipeSpecs) (d : ℕ) → can_take o any s d ≡ true → Extends o (take_pipe o s d)
take_pipe-Extends o s d p = record {
  num_pipes = refl;
  owner = λ i h. ground arith;
  allocated = λ i h. ground arith;
  usage = refl;
}

Served-Extends : (o : Overlay) (s : PipeSpecs) (r : Overlay × ℕ) → Served o s r → Extends o r.0
Served-Extends o s r (refused e) = rw e (Extends-refl o)
Served-Extends o s r (granted d e hi p q) = rw e (take_pipe-Extends o s d p)

-- A dest is none, or was free in the book.
abbrev pub IsFree : Overlay → ℕ → Type 0
IsFree o d = (d ≡ ov_invalid) ⊎ (o.allocated d ≡ false)

abbrev pub Distinct : List ℕ → Type 0
Distinct [] = Unit {0}
Distinct (d ∷ ds) = All (λ e. (e ≡ ov_invalid) ⊎ (d ≢ e)) ds × Distinct ds

module _ (target : Target) where
  -- In a book of at most OV_MAX pipes, a round's requests take no pipe from the display that holds it, undo no allocation and touch
  -- no usage.
  pub serve-Extends :
      (ss : List PipeSpecs) (o : Overlay)
      → o.num_pipes ≤ ov_invalid
      → Extends o (serve target ss o).0
  unfolding serve
  serve-Extends [] o b = Extends-refl o
  serve-Extends (s ∷ ss) o b =
      let one = Served-Extends o s _ (get_pipe-Served o s b target) in
      let o1 = (get_pipe target s o).0 in
      Extends-trans o o1 _ one (serve-Extends ss o1 (rw one.num_pipes b))

  -- In a book of at most OV_MAX pipes a request makes at most one pipe unavailable to a display.
  pub available_pipes-get_pipe :
      (s : PipeSpecs) (o : Overlay) (dpy : ℕ)
      → o.num_pipes ≤ ov_invalid
      → available_pipes o dpy ≤ available_pipes (get_pipe target s o).0 dpy + 1
  unfolding available_pipes
  available_pipes-get_pipe s o dpy b = cost _ (get_pipe-Served o s b target)
    where
      test : Overlay → ℕ → Bool
      test p i = free_for_display p dpy i && not (p.allocated i) && not (dma_blocked p i)

      cost :
          (r : Overlay × ℕ)
          → Served o s r
          → count_index o.num_pipes 0 (test o) ≤ count_index r.0.num_pipes 0 (test r.0) + 1
      cost r (refused e) = rw e (omega arith)
      cost r (granted d e hi p q) =
          rw e (
            count_index_one o.num_pipes 0 d (test o) (test (take_pipe o s d)) (λ j n. ground arith))
