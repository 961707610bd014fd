-- ===== src/Tools.antt =====
-- The command line tools: the group offsets, the raw tables, and the comparison of what was served with the warehouse.
pub mod SkewCheck
pub mod Backfill
pub mod Replay
mod Tests
