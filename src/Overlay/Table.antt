-- ===== src/Overlay/Table.antt =====
-- The table of pipe types that initOverlay fills, and the pipes that validateAndSet hands to the
-- driver (overlay.cpp).
use android_device_casio_dtx.Base.{
  ℕ, zero, suc, ◌+◌, ◌<◌, ◌≡◌, Bool, ◌&&◌, arith, ltb, leb, ◌==◌, if◌then◌else◌, update,
}
use android_device_casio_dtx.Ctrl.{PipeType, rgb, vg, dma, any}
use android_device_casio_dtx.Overlay.State.{Overlay, fill_type, init_lut, valid}

fill_type_at :
    (n index : ℕ) (t : PipeType) (lut : ℕ → PipeType) (i : ℕ)
    → fill_type n index t lut i ≡ (if leb index i && ltb i (index + n) then t else lut i)
unfolding fill_type
fill_type_at zero index t lut i = ground arith
fill_type_at (suc n) index t lut i =
    ground (arith, fill_type_at n (index + 1) t (update lut index t) i)

-- Below the number of pipes, the table lists the RGB pipes, then the VG pipes, then the DMA pipes.
pub init_lut_at :
    (rgb_pipes vg_pipes dma_pipes i : ℕ)
    → i < rgb_pipes + vg_pipes + dma_pipes
    → init_lut rgb_pipes vg_pipes dma_pipes i
      ≡ (if ltb i rgb_pipes then rgb else if ltb i (rgb_pipes + vg_pipes) then vg else dma)
unfolding init_lut
init_lut_at rgb_pipes vg_pipes dma_pipes i h =
    let lut0 : ℕ → PipeType = λ j. if j == 0 then any else rgb in
    let lut1 = fill_type rgb_pipes 0 rgb lut0 in
    let lut2 = fill_type vg_pipes rgb_pipes vg lut1 in
    ground (
      arith,
      fill_type_at rgb_pipes 0 rgb lut0 i,
      fill_type_at vg_pipes rgb_pipes vg lut1 i,
      fill_type_at dma_pipes (rgb_pipes + vg_pipes) dma lut2 i,
    )

-- The pipe was committed this round, exists and belongs to the display.
abbrev pub is_committed : ℕ → Overlay → ℕ → Bool
is_committed dpy o i = o.usage i && valid (o.book i) && (o.book i).display == dpy
