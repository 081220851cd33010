-- ===== src/Broker/Queue.antt =====
-- ramqp-broker/src/queue.rs: the transient queue's actor. State, Publish, Consume and Turn hold the
-- definitions; the other children hold what is proved of them.
pub mod State
pub mod Publish
pub mod Consume
pub mod Turn
pub mod Held
pub mod Conservation
pub mod Accounting
pub mod Settling
pub mod Soundness
pub mod Bounds
pub mod Progress
pub mod Demand
mod Examples
