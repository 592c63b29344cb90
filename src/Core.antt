-- ===== src/Core.antt =====
-- What every domain shares (backend/src/core).
pub mod Errors
