-- ===== src/Storage.antt =====
-- What the repositories store their records in, and the transactions that they run in.
pub mod Bolt
pub mod Backend
pub mod Tx
pub mod Memory
