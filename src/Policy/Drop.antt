-- ===== src/Policy/Drop.antt =====
-- src/pipeline/include/frame_drop_policy.h: which outcome of a frame counts as a drop.
use reji_studio.Base.{Bool, true, false}

pub data FrameOutcome : Type 0 where
  encoded encode_failed no_new_frame : FrameOutcome

unfoldable pub counts_as_frame_drop : FrameOutcome → Bool
counts_as_frame_drop FrameOutcome.encoded = false
counts_as_frame_drop FrameOutcome.encode_failed = true
counts_as_frame_drop FrameOutcome.no_new_frame = false
