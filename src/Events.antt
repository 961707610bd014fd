-- ===== src/Events.antt =====
-- The two services that produce the messages: the weather poller and the event generator.
pub mod Producer
pub mod Poller
pub mod Arrival
pub mod Demand
pub mod Generator
mod Tests
