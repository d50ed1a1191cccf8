-- ===== src/Storage/Bolt.antt =====
-- pkg/bbolt/bucket.go: the interface of the key-value library, and a bucket in memory that meets it.
pub mod Pairs
pub mod Api
pub mod Memory
pub mod Seek
