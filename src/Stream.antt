-- ===== src/Stream.antt =====
-- services/worker/app/stream_features: features from the event stream, kept in Redis and in the lake,
-- and tools/reconstruct.py, which recomputes them from the lake.
pub mod RedisOps
pub mod Buffer
pub mod Consumer
pub mod Reconstruct
pub mod Windows
pub mod Latest
pub mod Slots
mod Tests
