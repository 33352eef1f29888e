-- ===== src/Overlay.antt =====
-- liboverlay/overlay.h and overlay.cpp: the book of hardware pipes that displays share.
pub mod State
pub mod Alloc
pub mod Round
pub mod Sweep
pub mod Clear
pub mod Sound
pub mod Calls
pub mod Histories
pub mod Table
pub mod Examples
pub mod Pick
pub mod Serve
