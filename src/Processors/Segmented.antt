-- ===== src/Processors/Segmented.antt =====
-- app/audio_trombone/processors/segmented_inference.py: `SegmentedInferenceProcessor`, the
-- buffering that HTDemucs and ConvTasNet inherit. The proofs are in the modules below.
mod Defs
pub mod Launch
pub mod Distribute
pub mod Harvest
pub mod Ready
pub mod Process
pub mod Invariant
pub mod Methods
pub mod Complete
pub mod Fifo
pub mod Format
pub mod Failures
pub mod Pace
pub mod History
pub mod Refines
pub mod Lengths
unfoldable pub use Defs.*
