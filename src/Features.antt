-- ===== src/Features.antt =====
-- The features by name: the registry that the services share, the nightly batch that writes them to
-- Redis, and the serving layer that reads them there.
pub mod Registry
pub mod Sync
pub mod Online
mod Tests
