-- ===== src/Tests.antt =====
-- Runs on sample inputs, and the theorems at inputs that meet their hypotheses.
mod Samples
mod Risk
mod Account
mod Engine
mod Agents
mod Learning
mod Messages
mod Llm
mod Api
mod Tasks
mod Database
mod Market
mod Trading
mod Backtests
