-- ===== src/Policy.antt =====
-- The header-only decision functions of src/pipeline/include: bitrate steps, dropped frames,
-- repeated frames and fallback key frames, the trigger of a capture restart.
pub mod Bitrate
pub mod Drop
pub mod Repeat
pub mod Reinit
