-- ===== src/Controller.antt =====
-- controller.py
pub mod Tests
pub mod Connection
pub mod Buses
pub mod State
pub mod Commands
pub mod Ingest
pub mod Lifecycle
pub mod ReadLoop
pub mod Discovery
pub mod Refresh
pub mod Reach
