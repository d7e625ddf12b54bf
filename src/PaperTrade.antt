-- ===== src/PaperTrade.antt =====
-- The paper trade engine of backend/src/cryptoswarm/papertrade.
pub mod Result
pub mod Math
pub mod Account
pub mod Engine
