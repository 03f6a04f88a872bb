-- ===== src/Service.antt =====
-- app/audio_trombone/service.py: `TromboneService`, the settings, the processing loop and the life of
-- the service.
pub mod Settings
pub mod Live
pub mod Validated
pub mod State
pub mod Fixtures
pub mod Egress
pub mod Sends
pub mod Lifecycle
pub mod Cases
pub mod Coherence
pub mod Selection
pub mod Life
pub mod Work
pub mod Once
pub mod Drain
pub mod Library
pub mod Forwards
pub mod Holds
pub mod Counters
pub mod Healthy
pub mod History
pub mod Runs
pub mod Invariant
pub mod Atomic
mod Tests
mod LibraryTests
