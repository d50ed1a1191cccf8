-- ===== src/Tests.antt =====
-- Concrete runs of the modelled code, in memory.
pub mod Data
pub mod Store
pub mod Writes
pub mod Kv
pub mod Keys
pub mod Ring
pub mod Reads
pub mod Watching
pub mod Engine
pub mod Groups
pub mod Creation
