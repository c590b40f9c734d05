-- ===== src/Sv2.antt =====
-- The Stratum V2 side of the pool: src/models/sv2.
pub mod Codec
pub mod Messages
pub mod Frame
pub mod Extranonce
pub mod Tests
