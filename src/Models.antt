-- ===== src/Models.antt =====
-- The life of a trained model: services/trainer.
pub mod Promote
mod Tests
