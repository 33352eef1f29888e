-- ===== src/Rotator.antt =====
-- The rotators of liboverlay: the memory and the fences of one rotator, the MDSS rotator and the
-- manager of the sessions.
pub mod Memory
pub mod Fences
pub mod Scale
pub mod Mdss
pub mod Queue
pub mod Buffers
pub mod Caching
pub mod Reduce
pub mod Factor
pub mod Manager
pub mod Pool
pub mod Delete
pub mod Refine
pub mod Examples
