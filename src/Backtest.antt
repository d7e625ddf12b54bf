-- ===== src/Backtest.antt =====
-- The backtests of backend/scripts.
pub mod Paging
pub mod StopTake
pub mod Folds
pub mod Windows
pub mod Votes
pub mod Accuracy
pub mod Agreement
pub mod Cursors
pub mod Zones
