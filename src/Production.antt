-- ===== src/Production.antt =====
-- backend/production: the part of it that is modelled.
pub mod LimitReservation
pub mod Ledger
pub mod Replay
pub mod Entitlements
