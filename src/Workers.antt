-- ===== src/Workers.antt =====
-- The background workers: backend/src/workers.
pub mod Projector
pub mod Flusher
