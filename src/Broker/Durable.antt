-- ===== src/Broker/Durable.antt =====
-- ramqp-broker/src/durable.rs: the actor of a durable queue, with the store that it writes to.
pub mod Ordered
pub mod State
pub mod Handle
pub mod Dispatching
pub mod Run
pub mod Entries
pub mod Sound
pub mod Moves
pub mod Turns
pub mod Handling
pub mod Settling
pub mod Serving
pub mod Writing
pub mod Resolving
pub mod Restarting
pub mod Losses
pub mod Progress
mod Examples
