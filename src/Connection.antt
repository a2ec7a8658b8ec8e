-- ===== src/Connection.antt =====
-- rifts-broker/src/connection: one connection, from its handshake to its teardown.
pub mod Outbound
pub mod HelloPayload
pub mod Negotiation
pub mod Handshake
pub mod Greeting
pub mod Control
pub mod Reader
