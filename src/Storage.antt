-- ===== src/Storage.antt =====
-- rifts-storage/src: the four stores of a broker, as they are kept in memory and in a tree of sled.
pub mod Offset
pub mod Engine
pub mod Keys
pub mod Tree
pub mod SledOffset
pub mod SledDedupe
pub mod SledLog
pub mod SledSnapshot
pub mod Log
pub mod Dedupe
pub mod Snapshot
