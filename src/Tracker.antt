-- ===== src/Tracker.antt =====
-- The BitTorrent tracker.
pub mod Types
pub mod State
pub mod Http
pub mod Connection
mod Tests
