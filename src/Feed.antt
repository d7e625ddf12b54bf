-- ===== src/Feed.antt =====
-- backend/src/cryptoswarm/feed: the market data of the exchange, from its frames to the bus.
pub mod Frames
pub mod Handler
pub mod Stored
pub mod Routes
pub mod Connection
pub mod Filed
pub mod Exchange
