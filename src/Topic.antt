-- ===== src/Topic.antt =====
-- Topics: rifts-core/src/topic (ordering.rs, retention.rs, profile.rs, store.rs).
pub mod Policy
pub mod Name
pub mod Entry
pub mod Store
