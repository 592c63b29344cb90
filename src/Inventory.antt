-- ===== src/Inventory.antt =====
-- The stock ledger: backend/src/domains/inventory.
pub mod Rows
pub mod Cost
pub mod Movements
pub mod Ledger
pub mod Stock
pub mod LowStock
pub mod Catalogue
