-- ===== src/Gpu/Device.antt =====
-- crates/atomr-accel-cuda/src/device/device_actor.rs: the outer actor, which keeps work back while
-- the context is rebuilt. Actor references, buffers, streams and reply channels are numbered; what
-- a handler sends comes back as a list of effects.
pub mod Messages
pub mod Handler
pub mod Fifo
pub mod Settled
pub mod Answered
