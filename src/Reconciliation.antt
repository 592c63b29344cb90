-- ===== src/Reconciliation.antt =====
-- The reconciliation of settlements with open invoices
-- (backend/src/domains/intelligence/services/reconciliation_service.py).
pub mod Match
pub mod Exact
pub mod Semantic
pub mod Settle
pub mod Persist
pub mod Batch
pub mod Tests
