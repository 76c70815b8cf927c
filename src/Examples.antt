-- ===== src/Examples.antt =====
-- The theorems at concrete inputs: a session, the capture, the preview, the sound path, the policies,
-- the devices.
pub mod Fixtures
mod Capture
mod Coding
mod Devices
mod Encoder
mod Session
mod Shown
mod Sound
mod Watching
