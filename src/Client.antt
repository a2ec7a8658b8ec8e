-- ===== src/Client.antt =====
-- rifts-client/src: the client: its frames, its heartbeat, its connection and how it is repaired.
pub mod Frames
pub mod Heartbeat
pub mod Handshake
pub mod Hellos
pub mod Served
pub mod Subscriptions
pub mod Events
pub mod Session
pub mod Reconnect
pub mod Dispatch
