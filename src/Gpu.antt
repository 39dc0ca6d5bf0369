-- ===== src/Gpu.antt =====
-- crates/atomr-accel-cuda: the CUDA backend's host-side actors.
pub mod Error
pub mod State
pub mod Ref
pub mod Device
pub mod Pinned
pub mod Context
pub mod P2p
pub mod Placement
mod Examples
