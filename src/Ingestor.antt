-- ===== src/Ingestor.antt =====
-- services/ingestor/app: the consumers that write Kafka messages to Postgres or the dead-letter queue.
pub mod Db
pub mod Envelope
pub mod Consumers
pub mod Hourly
mod Tests
