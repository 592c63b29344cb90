-- ===== src/Finance/Invoices/Preserve.antt =====
-- Every operation on invoices keeps the invariant of the tables.
pub mod Posting
pub mod Settle
pub mod Adjust
pub mod Issue
pub mod Commands
