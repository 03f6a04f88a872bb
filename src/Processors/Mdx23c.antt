-- ===== src/Processors/Mdx23c.antt =====
-- app/audio_trombone/processors/mdx23c_vocals.py: `MDX23CVocalsProcessor`, which buffers like the
-- segmented processors, but drops the oldest input and mixes the ends of segments.
mod Crossfade
pub mod Adapter
pub mod Inference
pub mod Mixing
pub mod Faded
mod Formula
pub mod Trim
pub mod Harvest
pub mod Invariant
pub mod Methods
pub mod Outputs
pub mod Process
pub mod History
mod Tests
mod Defs
unfoldable pub use Defs.*
unfoldable pub use Crossfade.*
