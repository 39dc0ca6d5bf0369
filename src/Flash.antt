-- ===== src/Flash.antt =====
-- crates/atomr-accel-flashattn: attention requests and the table that names their kernels.
pub mod Key
pub mod Naming
pub mod Table
pub mod Request
pub mod Layout
mod Examples
