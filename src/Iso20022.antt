-- ===== src/Iso20022.antt =====
-- backend/iso20022: the part of it that is modelled.
pub mod States
pub mod Tests
