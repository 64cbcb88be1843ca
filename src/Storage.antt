-- ===== src/Storage.antt =====
-- internal/infrastructure/storage: the stored types and their mappers.
pub mod Model
pub mod Mapper
