-- ===== src/Core.antt =====
-- backend/core: bank and account identifiers.
pub mod Text
pub mod Bic
pub mod Iban
pub mod Tests
