-- ===== src/Nextgen.antt =====
-- The next-generation services (backend/nextgen).
pub mod Store
pub mod Runtime
pub mod Payments
pub mod Cips
pub mod Operators
pub mod Offline
pub mod Pvp
pub mod Programs
pub mod Retail
