-- ===== src/Finance.antt =====
-- The finance domain (backend/src/domains/finance).
pub mod Types
pub mod Fold
pub mod Rows
pub mod Db
pub mod Invoices
pub mod Expenses
pub mod Purchases
pub mod Vaults
pub mod Bank
pub mod Mpesa
mod Tests
