-- ===== src/Core.antt =====
-- The engine crate, ramqp-core: the codec, the transport, flow control, settlement, link recovery,
-- handles and sessions.
pub mod Performatives
pub mod Outcomes
pub mod Window
pub mod Credit
pub mod Unsettled
pub mod Resume
pub mod Allocator
pub mod Negotiate
pub mod Heartbeat
pub mod Codec
pub mod Transport
pub mod Session
mod Examples
