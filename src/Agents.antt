-- ===== src/Agents.antt =====
-- The agents of backend/src/cryptoswarm/agents.
pub mod Messages
pub mod Portfolio
pub mod Director
pub mod Quant
pub mod Sentiment
pub mod Ml
pub mod Rewards
pub mod Llm
pub mod Risk
