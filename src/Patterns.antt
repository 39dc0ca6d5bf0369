-- ===== src/Patterns.antt =====
-- crates/atomr-accel-patterns: serving patterns over the devices, of which the batching server, the
-- replica pool, the cascade, hot swap, the router of experts, the fair-share scheduler and speculative decoding are modelled.
pub mod Batching
pub mod Cascade
pub mod HotSwap
pub mod Moe
pub mod Replicas
pub mod Scheduler
pub mod Speculative
mod Examples
mod MoreExamples
