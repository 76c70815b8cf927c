-- ===== src/Policy/Reinit.antt =====
-- src/pipeline/include/reinit_trigger_policy.h: the source's level signal becomes an edge.
use reji_studio.Base.{
  ℕ, zero, suc, ◌+◌, ◌%◌, ◌≡◌, Bool, true, false, ◌&&◌, not, arith, leb, ltb, ◌==◌, if◌then◌else◌,
}
use reji_studio.Source.State.{SourceState}
use reji_studio.Source.Streak.{
  NullStreakTracker, on_frame, reset_streak, needs_reinit, null_streak_reinit_threshold,
}

abbrev pub rearm_period_frames : ℕ
rearm_period_frames = null_streak_reinit_threshold

pub record ReinitTriggerPolicy : Type 0 where
  pub was_needs_reinit : Bool
  pub frames_since_trigger : ℕ

abbrev pub initial_trigger : ReinitTriggerPolicy
initial_trigger = record { was_needs_reinit = false; frames_since_trigger = 0 }

abbrev pub is_needs_reinit : SourceState → Bool
is_needs_reinit SourceState.uninitialized = false
is_needs_reinit SourceState.running = false
is_needs_reinit SourceState.needs_reinit = true
is_needs_reinit SourceState.lost = false

unfoldable pub on_state : ReinitTriggerPolicy → SourceState → ReinitTriggerPolicy × Bool
on_state p s =
    let needs = is_needs_reinit s in
    let entered = needs && not p.was_needs_reinit in
    let since = p.frames_since_trigger + 1 in
    if not needs
    then (record { was_needs_reinit = needs; frames_since_trigger = 0 }, false)
    else if entered
    then (record { was_needs_reinit = needs; frames_since_trigger = 0 }, true)
    else if leb rearm_period_frames since
    then (record { was_needs_reinit = needs; frames_since_trigger = 0 }, true)
    else (record { was_needs_reinit = needs; frames_since_trigger = since }, false)

-- One tick of the frame thread: the streak sees the frame, the trigger the source's state.
pub record Watch : Type 0 where
  pub tracker : NullStreakTracker
  pub policy : ReinitTriggerPolicy

abbrev pub initial_watch : Watch
initial_watch = record { tracker = reset_streak; policy = initial_trigger }

abbrev pub state_of : NullStreakTracker → SourceState
state_of t = if needs_reinit t then SourceState.needs_reinit else SourceState.running

unfoldable pub watch_frame : Watch → Bool → Watch × Bool
unfolding on_frame needs_reinit on_state
watch_frame w has_frame =
    let t = on_frame w.tracker has_frame in
    let r = on_state w.policy (state_of t) in (record { tracker = t; policy = r.0 }, r.1)

-- The watch after `n` empty ticks in a row.
unfoldable pub after_nulls : Watch → ℕ → Watch
after_nulls w zero = w
after_nulls w (suc n) = (watch_frame (after_nulls w n) false).0

-- What the watch holds after `n` empty ticks that follow a frame.
record Waited (n : ℕ) (w : Watch) : Type 0 where
  streak : w.tracker.streak ≡ n
  level : w.policy.was_needs_reinit ≡ leb rearm_period_frames n
  since :
      w.policy.frames_since_trigger
      ≡ (if ltb n rearm_period_frames then 0 else n % rearm_period_frames)

Waited-step : {n : ℕ} {w : Watch} → Waited n w → Waited (suc n) (watch_frame w false).0
unfolding watch_frame
Waited-step v = ground arith

fires : {n : ℕ} {w : Watch} → Waited n w → (watch_frame w false).1 ≡ ((n + 1) % 60 == 0)
unfolding watch_frame
fires v = ground arith

Waited-after_nulls : (w : Watch) (n : ℕ) → Waited n (after_nulls (watch_frame w true).0 n)
unfolding after_nulls watch_frame
Waited-after_nulls w zero = ground arith
Waited-after_nulls w (suc n) = Waited-step (Waited-after_nulls w n)

-- After any frame, the n-th empty tick in a row asks for a restart exactly when n is a positive
-- multiple of 60: never before the 60th, once there, and again every 60 ticks, however long the
-- capture stays silent.
pub restart_every_sixty :
    (w : Watch) (n : ℕ)
    → (watch_frame (after_nulls (watch_frame w true).0 n) false).1 ≡ ((n + 1) % 60 == 0)
restart_every_sixty w n = fires (Waited-after_nulls w n)

-- A tick with a frame never asks, and clears the watch.
pub frame_clears : (w : Watch) → watch_frame w true ≡ (initial_watch, false)
unfolding watch_frame
frame_clears w = ground arith
