-- ===== src/Core.antt =====
-- backend/app/core: the domain exceptions and their HTTP form, and the values that other parts share.
pub mod Errors
pub mod Float
pub mod Config
pub mod Health
pub mod Container
pub mod Middleware
pub mod Application
