-- ===== src/Train.antt =====
-- crates/atomr-accel-train: training over several devices, of which the parameter server is modelled.
pub mod Parameters
mod Examples
