-- ===== src/Risk.antt =====
-- The risk checks of backend/src/cryptoswarm/risk.
pub mod Breakers
pub mod Guards
