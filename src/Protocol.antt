-- ===== src/Protocol.antt =====
-- rifts-core/src/protocol: close codes, error codes, version negotiation, heartbeat policy.
pub mod CloseCode
pub mod ErrorCode
pub mod Version
pub mod Heartbeat
pub mod Hello
