-- ===== src/Ecny.antt =====
-- The e-CNY subsystem (backend/ecny and the e-CNY tables of backend/database.py).
pub mod Store
pub mod Ledger
pub mod Wallet
pub mod Issuance
pub mod Compliance
pub mod Cips
pub mod Api
pub mod Tests
