-- ===== src/Core/Transport.antt =====
-- ramqp-core/src/transport: frames on a byte stream.
pub mod Frame
pub mod Writing
pub mod Gather
pub mod Wire
pub mod Reading
pub mod Heads
pub mod Splitting
pub mod Delivery
mod Examples
