-- ===== src/Tools.antt =====
-- app/audio_trombone/tools: the command-line tools around the MDX23C model.
pub mod Checkpoint
