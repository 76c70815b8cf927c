-- ===== src/Source/Streak.antt =====
-- src/pipeline/include/desktop_source_logic.h: the mapping of a captured frame and the count of
-- empty ticks in a row.
use reji_studio.Base.{ℕ, ◌+◌, Bool, true, false, leb, ◌==◌, if◌then◌else◌}
use reji_studio.Source.State.{CapturedFrame, SourceFrame}

abbrev pub wgc_frame_pool_format : ℕ
wgc_frame_pool_format = 87

abbrev pub null_streak_reinit_threshold : ℕ
null_streak_reinit_threshold = 60

unfoldable pub map_captured_frame : CapturedFrame → ℕ → ℕ → SourceFrame
map_captured_frame frame format fallback_timestamp_us = record {
  type = frame.type;
  handle = frame.handle;
  width = frame.width;
  height = frame.height;
  format = format;
  timestamp_us = if frame.timestamp_us == 0 then fallback_timestamp_us else frame.timestamp_us;
}

pub record NullStreakTracker : Type 0 where
  pub streak : ℕ

unfoldable pub on_frame : NullStreakTracker → Bool → NullStreakTracker
on_frame t true = record { streak = 0 }
on_frame t false = record { streak = t.streak + 1 }

abbrev pub reset_streak : NullStreakTracker
reset_streak = record { streak = 0 }

unfoldable pub needs_reinit : NullStreakTracker → Bool
needs_reinit t = leb null_streak_reinit_threshold t.streak
