-- ===== src/Ml.antt =====
-- The learning parts of backend/src/cryptoswarm/ml.
pub mod Reward
pub mod Policy
pub mod Features
pub mod Kronos
