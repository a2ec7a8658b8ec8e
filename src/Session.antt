-- ===== src/Session.antt =====
-- rifts-session/src/session: sessions, their store, the offsets they have reached and the resume
-- decision.
pub mod Auth
pub mod Lifecycle
pub mod Offsets
pub mod Resume
pub mod Store
