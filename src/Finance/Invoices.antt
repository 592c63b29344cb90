-- ===== src/Finance/Invoices.antt =====
-- The invoice operations of `FinanceService`: backend/src/domains/finance/service.py. An operation
-- takes the database and returns its result with the new one. The clock and the uuids that it draws
-- are arguments. What a session flushes is in the database at once; a raise undoes all of it.
pub mod Projection
pub mod Issue
pub mod Settle
pub mod Adjust
pub mod Caching
pub mod Invariant
pub mod Post
pub mod Preserve
pub mod Audit
pub mod Outcomes
pub mod Settled
pub mod Backed
pub mod Tests
