-- ===== src/Frame.antt =====
-- Frames: rifts-core/src/frame/types.rs, envelope.rs and rifts-core/src/frame_codec.rs.
pub mod Types
pub mod Flags
pub mod Envelope
pub mod Codec
pub mod Text
