-- ===== src/Shared.antt =====
-- backend/app/shared
pub mod Paths
pub mod Storage
pub mod Repository
