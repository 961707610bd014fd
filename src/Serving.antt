-- ===== src/Serving.antt =====
-- services/api/app/main.py: the models that the API serves, its predictions and its live stream.
pub mod Models
pub mod Predict
pub mod Broadcast
pub mod Shadow
pub mod Prometheus
pub mod Reads
mod Tests
