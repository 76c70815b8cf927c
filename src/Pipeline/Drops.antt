-- ===== src/Pipeline/Drops.antt =====
-- src/pipeline/pipeline.cpp: which frames count as dropped, and the sample that carries the count.
pub mod Failures
use reji_studio.Base.{
  ℕ, ◌+◌, ◌^◌, ◌%◌, ◌<◌, ◌≡◌, refl, sym, subst, ap, ◌∙◌, Bool, true, false, ◌&&◌, ◌||◌, not, Option,
  none, some, is_some, List, [], ◌∷◌, ◌++◌, arith, if◌then◌else◌, add_u32,
}
use reji_studio.Base.Int.{ℤ}
use reji_studio.Source.Streak.{map_captured_frame}
use reji_studio.Source.Desktop
use reji_studio.Source.Desktop.{ExistingDesktopSource, next_frame}
use reji_studio.Policy.Drop.{counts_as_frame_drop}
use reji_studio.Policy.Repeat.{should_repeat_frame, should_force_idr}
use reji_studio.Encode.{EncodeSubsystem, encode_frame, request_idr}
use reji_studio.Output.{OutputSubsystem, send}
use reji_studio.Audio.Bridge.{AacEncoder}
use reji_studio.Trace.{Event}
use reji_studio.Router.{RjCommand, FrameCmd, Inbox, apply_ws, call_scene}
use reji_studio.Router.Queue.{IsValid}
use reji_studio.Router.Order.{drain_and_apply-keeps}
use reji_studio.Pipeline.Commands.{
  handlers, apply_command, apply_frame_cmd, handle_start_stop, start_stream, stop_stream,
  invoke_scene_cmd,
}
use reji_studio.Pipeline.State.{Impl, RjMetricSample, RepeatTexture}
use reji_studio.Pipeline.Packet.{
  Packet, on_packet, on_packets, observe_keyframe, send_packet, drain_audio,
}
use reji_studio.Pipeline.Frame.{
  keep_copy, encode_new, new_frame, repeat_copy, repeat_last, use_frame, null_frame,
  observe_capture, capture_and_encode, push_metrics, flush_diag, pace_frame, run_frame,
  drain_commands, capture_from, capture_step, build_sample, is_uninitialized,
}
use reji_studio.Pipeline.Frame.Encoding.{
  FrameInputs, maybe_force_idr, receive, encode_texture, conclude, encode_and_recover, recover,
  show_interop, show_preview,
}
use reji_studio.Pipeline.Drops.Failures.{
  failed_send, failed_sends, encode_failures, new_frame-drops, null_frame-drops, turn_failures,
}

use_frame-drops :
    (s : Impl) (source : ExistingDesktopSource) (i : FrameInputs) (handle : Option ℕ) (edge : Bool)
    → s.frame_drops ≡ s.frame_drops % 2 ^ 32
    → (use_frame s source i handle edge).frame_drops
      ≡ (s.frame_drops
          + (if is_some handle || is_some s.repeat_tex then encode_failures s i else 0))
        % 2 ^ 32
unfolding use_frame
use_frame-drops s source i none edge h = null_frame-drops s source i edge h
use_frame-drops s source i (some tex) edge h = new_frame-drops s source i tex h

handed :
    (source : ExistingDesktopSource) (i : FrameInputs)
    → is_some source.capture ≡ true
    → (next_frame source i.captured i.capture_clock).1.handle ≡ i.captured.handle
unfolding next_frame map_captured_frame
handed source i c = ground arith

capture_and_encode-drops :
    (s : Impl) (source : ExistingDesktopSource) (i : FrameInputs)
    → is_some source.capture ≡ true
    → s.frame_drops ≡ s.frame_drops % 2 ^ 32
    → (capture_and_encode s source i).frame_drops ≡ (s.frame_drops + turn_failures s i) % 2 ^ 32
unfolding capture_and_encode observe_capture turn_failures encode_failures
capture_and_encode-drops s source i c h =
    use_frame-drops (observe_capture s source i).0 (next_frame source i.captured i.capture_clock).0
      i (next_frame source i.captured i.capture_clock).1.handle _ h
    ∙ rw (handed source i c) refl

-- What no drained command touches.
record Untouched (s t : Impl) : Type 0 where
  source : t.source ≡ s.source
  drops : t.frame_drops ≡ s.frame_drops

command-Untouched : (s t : Impl) (c : RjCommand) → Untouched s t → Untouched s (apply_command t c)
unfolding apply_command
command-Untouched s t c u = record {
  source = ground (arith, u.source);
  drops = ground (arith, u.drops);
}

ws-Untouched : (s t : Impl) (c : ℕ × ℤ) → Untouched s t → Untouched s (apply_ws handlers t c)
unfolding apply_ws call_scene handle_start_stop start_stream stop_stream invoke_scene_cmd
ws-Untouched s t c u = record { source = ground (arith, u.source); drops = ground (arith, u.drops) }

frame_cmd-Untouched :
    (s t : Impl) (c : FrameCmd) → Untouched s t → Untouched s (apply_frame_cmd t c)
unfolding apply_frame_cmd
frame_cmd-Untouched s t c u = record {
  source = ground (arith, u.source);
  drops = ground (arith, u.drops);
}

drain_commands-Untouched :
    (s : Impl) (inbox : Inbox) → IsValid s.command_router → Untouched s (drain_commands s inbox)
unfolding drain_commands
drain_commands-Untouched s inbox v =
    let u =
      drain_and_apply-keeps (Untouched s) handlers (command-Untouched s) (ws-Untouched s)
        (frame_cmd-Untouched s) s.command_router inbox s v
        (record { source = refl; drops = refl }) in
    record { source = u.source; drops = u.drops }

awake :
    (source : ExistingDesktopSource)
    → is_some source.capture ≡ true
    → is_uninitialized (some source) ≡ false
unfolding Desktop.state
awake source c = ground arith

capture_step-drops :
    (s : Impl) (source : ExistingDesktopSource) (i : FrameInputs)
    → s.source ≡ some source
    → is_some source.capture ≡ true
    → s.frame_drops ≡ s.frame_drops % 2 ^ 32
    → (capture_step s i).frame_drops ≡ (s.frame_drops + turn_failures s i) % 2 ^ 32
unfolding capture_step capture_from
capture_step-drops s source i e c h =
    subst (λ o. (capture_from s i o).frame_drops ≡ (s.frame_drops + turn_failures s i) % 2 ^ 32)
      (sym e) (rw (awake source c) (capture_and_encode-drops s source i c h))

-- The counters of the last sample.
abbrev pub sampled_drops : Option RjMetricSample → Option ℕ
sampled_drops none = none
sampled_drops (some m) = some m.frame_drops

after_metrics :
    (s : Impl) (i : FrameInputs)
    → let r = pace_frame (flush_diag (push_metrics s i) i) i in
      (r.frame_drops ≡ 0) × (sampled_drops r.last_sample ≡ some s.frame_drops)
unfolding pace_frame flush_diag push_metrics build_sample
after_metrics s i = ground arith

-- On a source that runs, a turn of the frame thread succeeds, starts the drop counter again at 0
-- and reports in its sample exactly the drops since the last one: those that stood in the counter,
-- one for each send of this turn that failed on air, and one if the encode failed. An empty tick
-- without a kept copy adds none.
pub run_frame_reports_drops :
    (s : Impl) (source : ExistingDesktopSource) (i : FrameInputs)
    → IsValid s.command_router
    → s.source ≡ some source
    → is_some source.capture ≡ true
    → s.frame_drops < 2 ^ 32
    → let r = run_frame s i in
      (r.1 ≡ true)
      × (r.0.frame_drops ≡ 0)
      × (sampled_drops r.0.last_sample
          ≡ some ((s.frame_drops + turn_failures (drain_commands s i.inbox) i) % 2 ^ 32))
unfolding run_frame
run_frame_reports_drops s source i v e c h =
    let u = drain_commands-Untouched s i.inbox v in
    let d = drain_commands s i.inbox in
    let turn = capture_step-drops d source i (u.source ∙ e) c (rw u.drops (omega arith)) in
    let done = after_metrics (capture_step d i) i in
    let runs : is_uninitialized s.source ≡ false = rw e (awake source c) in
    rw runs (refl, done.0, done.1 ∙ ap some (turn ∙ rw u.drops refl))
