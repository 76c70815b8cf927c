-- ===== src/Source.antt =====
-- The capture source: src/pipeline/include/{i_source,desktop_source_logic}.h and
-- src/pipeline/existing_desktop_source.cpp.
pub mod State
pub mod Streak
pub mod Desktop
