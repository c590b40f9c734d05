-- ===== src/Coinbase.antt =====
-- The coinbase payout mathematics: src/services/coinbase-distribution.ts and
-- src/services/blockparty-distribution.ts.
pub mod Weight
pub mod Miner
pub mod Share
pub mod Cap
pub mod Input
pub mod Build
pub mod Tests
pub mod Blockparty
