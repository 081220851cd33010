-- ===== src/Core/Codec.antt =====
-- ramqp-core/src/codec: the AMQP type system and its wire format.
pub mod Reading
pub mod Utf8
pub mod Primitives
pub mod Value
mod Examples
