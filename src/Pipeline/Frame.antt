-- ===== src/Pipeline/Frame.antt =====
-- src/pipeline/pipeline.cpp: one turn of the frame thread. What the turn reads from outside (clocks,
-- the captured frame, the encoder's packets, the driver's answers) is its argument.
pub mod Encoding
use reji_studio.Base.{
  ℕ, ◌+◌, ◌-◌, ◌*◌, ◌/◌, ◌%◌, ◌^◌, Bool, true, false, ◌&&◌, not, Option, none, some, is_some, List,
  [], ◌∷◌, ltb, ◌==◌, if◌then◌else◌, add_u32,
}
use reji_studio.Base.Int.{ℤ, pos, pos_part, neg_part}
use reji_studio.Source.State.{CapturedFrame, SourceState}
use reji_studio.Source.Desktop
use reji_studio.Source.Desktop.{ExistingDesktopSource, next_frame, metadata}
use reji_studio.Policy.Drop.{FrameOutcome, counts_as_frame_drop}
use reji_studio.Policy.Repeat.{should_repeat_frame, should_force_idr}
use reji_studio.Policy.Reinit.{on_state}
use reji_studio.Encode.{EncodeSubsystem, encode_frame, request_idr}
use reji_studio.Router.{Inbox, drain_and_apply}
use reji_studio.Recovery.{LossAnswers, handle_device_lost}
use reji_studio.Interop.{FrameImages, get_frame_images, cache_last_images}
use reji_studio.Diag.{Sample, begin_window, maybe_flush}
use reji_studio.Pacer
use reji_studio.Pacer.{FramePacer, ticks_to_us, pace}
use reji_studio.Audio.Bridge.{AacEncoder}
use reji_studio.Trace.{Event}
use reji_studio.Pipeline.State.{Impl, RepeatTexture, RjMetricSample, MetricsSubsystem}
use reji_studio.Pipeline.Commands.{emit, handlers}
use reji_studio.Pipeline.Packet.{Packet, on_packets, note, ticks_us}
use reji_studio.Pipeline.Frame.Encoding.{
  copy_for_repeat, FrameInputs, maybe_force_idr, receive, encode_texture, recover, count_drop,
  conclude, encode_and_recover, show_interop, show_preview,
}

-- The kept copy is renewed, and the copy's time noted.
unfoldable pub keep_copy : Impl → FrameInputs → Impl
unfolding copy_for_repeat ticks_us
keep_copy s i =
    note (record s { repeat_tex = (copy_for_repeat s.repeat_tex i.copy).0 })
      (Sample.copied (ticks_us s.pacer i.durations.copy))

-- What is encoded: the copy, or the live texture if there is none.
abbrev pub or_live : Option ℕ → ℕ → ℕ
or_live none tex = tex
or_live (some copy) tex = copy

-- The encode in the branch with a texture.
unfoldable pub encode_new : Impl → ExistingDesktopSource → FrameInputs → ℕ → Impl
unfolding keep_copy encode_and_recover copy_for_repeat Pacer.pts_us
encode_new s source i tex =
    (encode_and_recover (keep_copy s i) source i
      (or_live (copy_for_repeat s.repeat_tex i.copy).1 tex) (Pacer.pts_us s.pacer i.frame_start)
      false).0

unfoldable pub new_frame : Impl → ExistingDesktopSource → FrameInputs → ℕ → Impl
unfolding encode_new show_interop show_preview
new_frame s source i tex = show_preview (show_interop (encode_new s source i tex) i) i

-- The null tick's repeated encode of the copy, and whether it ended in a recovery.
unfoldable pub repeat_copy :
    Impl → ExistingDesktopSource → FrameInputs → Option RepeatTexture → Impl × Bool
unfolding should_repeat_frame encode_and_recover Pacer.pts_us
repeat_copy s source i none = (s, false)
repeat_copy s source i (some t) =
    if should_repeat_frame true true
    then encode_and_recover s source i t.texture (Pacer.pts_us s.pacer i.frame_start) true
    else (s, false)

unfoldable pub repeat_last : Impl → ExistingDesktopSource → FrameInputs → Impl × Bool
unfolding repeat_copy
repeat_last s source i = repeat_copy s source i s.repeat_tex

unfoldable pub null_frame : Impl → ExistingDesktopSource → FrameInputs → Bool → Impl
unfolding repeat_last recover counts_as_frame_drop
null_frame s source i reinit_edge =
    let r = repeat_last (count_drop s FrameOutcome.no_new_frame) source i in
    if reinit_edge && not r.1 then recover r.0 source i.loss else r.0

-- The two branches.
unfoldable pub use_frame : Impl → ExistingDesktopSource → FrameInputs → Option ℕ → Bool → Impl
unfolding new_frame null_frame
use_frame s source i none reinit_edge = null_frame s source i reinit_edge
use_frame s source i (some tex) reinit_edge = new_frame s source i tex

-- The capture of a frame: the source's state feeds the trigger in every turn; the flag is its edge.
unfoldable pub observe_capture : Impl → ExistingDesktopSource → FrameInputs → Impl × Bool
unfolding next_frame on_state Desktop.state ticks_us
observe_capture s source i =
    let captured = next_frame source i.captured i.capture_clock in
    let edge = on_state s.reinit_trigger (Desktop.state captured.0) in
    (
      note (record s { source = some captured.0; reinit_trigger = edge.0 })
          (Sample.capture (ticks_us s.pacer i.durations.capture) (is_some captured.1.handle)),
      edge.1,
    )

-- Step 2: capture and encode.
unfoldable pub capture_and_encode : Impl → ExistingDesktopSource → FrameInputs → Impl
unfolding next_frame observe_capture use_frame
capture_and_encode s source i =
    let captured = next_frame source i.captured i.capture_clock in
    let observed = observe_capture s source i in
    use_frame observed.0 captured.0 i captured.1.handle observed.1

abbrev pub metric_magic : ℕ
metric_magic = 0xeeff_1234

-- static_cast<uint64_t> of an int64_t.
abbrev pub to_u64 : ℤ → ℕ
to_u64 a = (pos_part a + 2 ^ 64 - neg_part a) % 2 ^ 64

unfoldable pub build_sample : MetricsSubsystem → ℕ → ℕ → ℕ → ℕ → RjMetricSample
unfolding ticks_to_us
build_sample m bitrate_kbps frame_drops_delta frame_start qpc_freq = record {
  magic_head = metric_magic;
  timestamp_us = to_u64 (ticks_to_us (pos frame_start) qpc_freq);
  bitrate_kbps = bitrate_kbps;
  frame_drops = frame_drops_delta;
  collector = elim m.metrics [ none ↦ none | some c ↦ some c.metrics ];
}

-- Step 4: the drops are handed over and start again at 0.
unfoldable pub push_metrics : Impl → FrameInputs → Impl
unfolding build_sample
push_metrics s i =
    let m =
      build_sample s.metrics_sub s.bitrate_kbps s.frame_drops i.frame_start s.pacer.qpc_freq in
    emit
      (record s {
        frame_drops = 0;
        last_sample = some m;
        metrics_sub = record (s.metrics_sub) { last_frame_ticks = i.frame_start };
      })
      (Event.metrics_push ∷ [])

-- The diagnosis line, once a second.
unfoldable pub flush_diag : Impl → FrameInputs → Impl
unfolding begin_window maybe_flush ticks_us
flush_diag s i =
    let now_us =
      if ltb 0 s.pacer.qpc_freq then i.diag_clock * 1_000_000 / s.pacer.qpc_freq % 2 ^ 64 else 0 in
    let opened =
      if s.send_diag_window_open
      then s
      else record s { send_diag = begin_window s.send_diag now_us; send_diag_window_open = true } in
    let noted = note opened (Sample.total (ticks_us s.pacer i.durations.total)) in
    record noted { send_diag = (maybe_flush noted.send_diag now_us).0 }

-- Step 5.
unfoldable pub pace_frame : Impl → FrameInputs → Impl
unfolding pace ticks_us
pace_frame s i =
    note (record s { pacer = (pace s.pacer i.pace_clock i.pace_readings).0 })
      (Sample.paced (ticks_us s.pacer i.durations.pace))

abbrev pub is_uninitialized : Option ExistingDesktopSource → Bool
is_uninitialized none = true
is_uninitialized (some source) = elim (Desktop.state source) [
  | SourceState.uninitialized ↦ true
  | SourceState.running ↦ false
  | SourceState.needs_reinit ↦ false
  | SourceState.lost ↦ false
]

-- Steps 0 to 1b: what other threads have left for the frame thread.
unfoldable pub drain_commands : Impl → Inbox → Impl
unfolding drain_and_apply
drain_commands s inbox =
    let d = drain_and_apply handlers s.command_router inbox s in
    record (d.1) { command_router = d.0 }

unfoldable pub capture_from : Impl → FrameInputs → Option ExistingDesktopSource → Impl
unfolding Desktop.state capture_and_encode
capture_from s i none = s
capture_from s i (some source) =
    if is_uninitialized (some source) then s else capture_and_encode s source i

unfoldable pub capture_step : Impl → FrameInputs → Impl
unfolding capture_from
capture_step s i = capture_from s i s.source

unfoldable pub run_frame : Impl → FrameInputs → Impl × Bool
unfolding Desktop.state drain_commands capture_step push_metrics flush_diag pace_frame
run_frame s i = if is_uninitialized s.source then (s, false) else (
  pace_frame (flush_diag (push_metrics (capture_step (drain_commands s i.inbox) i) i) i) i,
  true,
)
