-- ===== src/Suppliers.antt =====
-- Reading what a supplier sends.
pub mod Csv
