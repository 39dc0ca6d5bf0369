-- ===== src/Cutlass.antt =====
-- The CUTLASS crate: crates/atomr-accel-cutlass/src.
pub mod Dtype
pub mod Gemm
pub mod Key
pub mod Requests
pub mod Render
pub mod Cancel
pub mod Lanes
pub mod Actor
mod Examples
