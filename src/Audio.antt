-- ===== src/Audio.antt =====
-- The sound path: src/pipeline/audio.
pub mod Ring
pub mod Sync
pub mod Format
pub mod Bridge
