-- ===== src/UseCase.antt =====
-- internal/application/usecase.
mod Examples
pub mod Parse
pub mod Index
pub mod Query
