-- ===== src/Bus.antt =====
-- The message bus of backend/src/cryptoswarm/bus.
pub mod Messages
