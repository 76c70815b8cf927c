-- ===== src/Pipeline.antt =====
-- The orchestrator: src/pipeline/pipeline.cpp.
pub mod State
pub mod Commands
pub mod Packet
pub mod Frame
pub mod Teardown
pub mod Setup
pub mod Adapters
pub mod Bitrate
pub mod Streaming
pub mod Drops
pub mod Lifecycle
