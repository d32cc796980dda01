-- ===== src/Storage.antt =====
-- crates/storage and the content hashes of crates/core/src/types: encrypted blobs in files that are
-- named by the hash of their contents.
pub mod Hash
pub mod HashLaws
pub mod Disk
pub mod Blobs
pub mod Paths
pub mod Writes
pub mod Integrity
pub mod Keys
pub mod Toy
mod Tests
