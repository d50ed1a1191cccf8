-- ===== src/Domain.antt =====
-- internal/domain and internal/storage/internal: the records that the layers exchange, and the
-- rows that the repository stores.
pub mod Config
pub mod Row
pub mod Failure
