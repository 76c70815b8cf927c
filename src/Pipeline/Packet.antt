-- ===== src/Pipeline/Packet.antt =====
-- src/pipeline/pipeline.cpp: what the encoder's packet callback and the sound device's callback do.
-- A duration is the difference of two readings of the performance counter, in ticks.
use reji_studio.Base.{
  ℕ, ◌*◌, ◌/◌, ◌%◌, ◌^◌, Bool, not, none, some, List, [], ◌∷◌, ltb, if◌then◌else◌, add_u32,
}
use reji_studio.Base.Int.{ℤ}
use reji_studio.Policy.Repeat.{on_keyframe}
use reji_studio.Metrics.{MetricsCollector, record_frame, record_frame_drop}
use reji_studio.Diag.{Sample, record_sample}
use reji_studio.Output.{TransportAnswers, send}
use reji_studio.Audio.Bridge.{AacEncoder, drain, push_chunk}
use reji_studio.Audio.Ring.{Chunk}
use reji_studio.Audio.Sync.{rebase_audio_pts}
use reji_studio.Pacer.{FramePacer, origin_us}
use reji_studio.Pipeline.State.{Impl, MetricsSubsystem}
use reji_studio.Pipeline.Commands.{emit}

-- static_cast<uint32_t>((dt * 1'000'000) / f)
unfoldable pub ticks_us : FramePacer → ℕ → ℕ
ticks_us p dt = if ltb 0 p.qpc_freq then dt * 1_000_000 / p.qpc_freq % 2 ^ 32 else 0

-- A packet of the encoder, with what the transport answers while it is handled and how long that takes.
pub record Packet : Type 0 where
  pub pts : ℤ
  pub is_keyframe : Bool
  pub wire : TransportAnswers
  pub wire_at_start : TransportAnswers
  pub send_ticks : ℕ
  pub drain_ticks : ℕ

-- The member calls that do nothing without a collector.
abbrev pub with_collector :
    MetricsSubsystem → (MetricsCollector → MetricsCollector) → MetricsSubsystem
with_collector m f = elim m.metrics [ none ↦ m | some c ↦ record m { metrics = some (f c) } ]

abbrev pub note : Impl → Sample → Impl
note s x = record s { send_diag = record_sample s.send_diag x }

-- if (pkt.is_keyframe) self->idr_cadence_.on_keyframe(pkt.pts)
unfoldable pub observe_keyframe : Impl → Packet → Impl
unfolding on_keyframe
observe_keyframe s p =
    if p.is_keyframe then record s { idr_cadence = on_keyframe s.idr_cadence p.pts } else s

-- The video of the packet: the send, its statistics, and the drop if it failed.
unfoldable pub send_packet : Impl → Packet → Impl
unfolding send record_frame record_frame_drop ticks_us
send_packet s p =
    let counted = record s { metrics_sub = with_collector s.metrics_sub record_frame } in
    let answer = send counted.output_sub p.wire p.pts in
    let sent =
      note (emit counted answer.0) (Sample.send_video (ticks_us s.pacer p.send_ticks) answer.1) in
    if answer.1 then sent else record sent {
      frame_drops = add_u32 sent.frame_drops 1;
      metrics_sub = with_collector sent.metrics_sub record_frame_drop;
    }

-- The sound that waits, on the same thread.
unfoldable pub drain_audio : Impl → AacEncoder → Packet → Impl
unfolding ticks_us
drain_audio s aac p =
    let d =
      drain s.audio_bridge aac
        (record { output = s.output_sub; at_start = p.wire_at_start; later = p.wire }) p.pts in
    note (emit (record s { audio_bridge = d.0 }) d.1)
      (Sample.audio_drain (ticks_us s.pacer p.drain_ticks))

unfoldable pub on_packet : AacEncoder → Impl → Packet → Impl
unfolding observe_keyframe send_packet drain_audio
on_packet aac s p =
    let observed = observe_keyframe s p in
    if not observed.streaming then observed else drain_audio (send_packet observed p) aac p

unfoldable pub on_packets : AacEncoder → Impl → List Packet → Impl
on_packets aac s [] = s
on_packets aac s (p ∷ ps) = on_packets aac (on_packet aac s p) ps

-- The capture thread's callback.
unfoldable pub on_audio_capture : Impl → Chunk → Impl
unfolding push_chunk rebase_audio_pts origin_us
on_audio_capture s c = record s {
  audio_bridge =
      push_chunk s.audio_bridge
        (record c { pts_us = rebase_audio_pts c.pts_us (origin_us s.pacer) });
}
