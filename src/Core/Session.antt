-- ===== src/Core/Session.antt =====
-- ramqp-core/src/session/state.rs: a session and its links. State holds the data; Names,
-- Links, Accepting, Sending, Receiving, Inbound, Settling and Flowing hold the operations, and the
-- other children what is proved of them.
pub mod State
pub mod Names
pub mod Sending
pub mod Receiving
pub mod Links
pub mod Accepting
pub mod Settling
pub mod Flowing
pub mod WellFormed
pub mod Keeping
pub mod Shapes
pub mod Calls
pub mod Panics
pub mod Awaiting
pub mod Answers
mod Examples
pub mod Inbound
pub mod Splitting
pub mod Reassembly
pub mod Outflow
pub mod Gating
pub mod Flushing
