-- ===== src/Copybit.antt =====
-- libhwcomposer/hwc_copybit.cpp: composition by a blit engine into render buffers. A handle, a
-- buffer and a descriptor are numbers, and a NULL or a -1 is `none`.
pub mod Swap
pub mod Unchanged
pub mod Overlap
pub mod Placed
pub mod Held
pub mod Examples
