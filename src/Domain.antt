-- ===== src/Domain.antt =====
-- internal/domain: the model and the retry service.
pub mod Status
pub mod Url
pub mod Page
pub mod Retry
mod Examples
