-- ===== src/ConfigStore.antt =====
-- internal/storage/bbolt/config: the repository of configs.
pub mod Keys
pub mod Db
pub mod Write
pub mod Etcd
pub mod EtcdWrite
pub mod Rows
pub mod Expected
pub mod Writes
pub mod Consistent
pub mod Reach
pub mod PointRead
pub mod ReadBack
pub mod TimeTravel
pub mod Decisions
pub mod Frame
pub mod Read
pub mod History
pub mod RangeChanges
