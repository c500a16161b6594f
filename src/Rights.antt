-- ===== src/Rights.antt =====
-- Grid rights and their tranches: src/decision.rs, and the balance events of src/event.rs.
pub mod Status
mod Tests
pub mod Tranche
pub mod Balance
