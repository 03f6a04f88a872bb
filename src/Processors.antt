-- ===== src/Processors.antt =====
-- app/audio_trombone/processors: the processors, one module each.
pub mod Torch
pub mod Pipeline
pub mod Segmented
pub mod Htdemucs
pub mod Convtasnet
pub mod Mdx23c
pub mod Centre
mod Tests
