-- ===== src/Pipeline/Streaming.antt =====
-- src/pipeline/pipeline.cpp: the stream is on exactly while packets reach the wire.
use reji_studio.Base.{
  ℕ, ◌≡◌, refl, inl, inr, true, false, Bool-cases, none, some, is_some, List, [], ◌∷◌, arith,
  if◌then◌else◌,
}
use reji_studio.Base.Int.{ℤ}
use reji_studio.Encode.{encode_frame, request_idr}
use reji_studio.Output.{set_streaming}
use reji_studio.Policy.Repeat.{IdrCadence, on_keyframe}
use reji_studio.Audio.Bridge.{AacEncoder}
use reji_studio.Trace.{Event}
use reji_studio.Pipeline.State.{Impl}
use reji_studio.Pipeline.Commands.{start_stream, stop_stream, is_running}
use reji_studio.Pipeline.Packet.{Packet, on_packet, on_packets, observe_keyframe}

-- The pointer that the packet callback reads is the transport while the stream is on, null otherwise.
unfoldable pub IsLinked : Impl → Type 0
IsLinked s = s.output_sub.transport_atomic ≡ (if s.streaming then s.output_sub.transport else none)

-- Starting and stopping keep the pointer linked to the flag, whatever the state; a start succeeds
-- exactly once initialised and then streams, a stop always succeeds and leaves nothing streaming,
-- and either one done twice is done once.
pub start_stop-IsLinked :
    (s : Impl)
    → IsLinked s
    → IsLinked (start_stream s).0
      × IsLinked (stop_stream s).0
      × ((start_stream s).1 ≡ s.initialized)
      × (is_running (start_stream s).0 ≡ s.initialized)
      × ((stop_stream s).1 ≡ true)
      × (is_running (stop_stream s).0 ≡ false)
      × (start_stream (start_stream s).0 ≡ start_stream s)
      × (stop_stream (stop_stream s).0 ≡ stop_stream s)
unfolding IsLinked start_stream stop_stream is_running set_streaming
start_stop-IsLinked s h = ground arith

-- A start from rest marks exactly the next encoded frame for an IDR: that frame is forced, the one
-- after it is not.
pub start_forces_one_idr :
    (s : Impl) (t1 t2 : ℕ) (p1 p2 : ℤ)
    → s.initialized ≡ true
    → s.streaming ≡ false
    → is_some s.encode_sub.encoder ≡ true
    → let first = encode_frame (start_stream s).0.encode_sub t1 p1 in
      (first.1 ≡ some (Event.encoder_encode t1 p1 true))
      × ((encode_frame first.0 t2 p2).1 ≡ some (Event.encoder_encode t2 p2 false))
unfolding start_stream request_idr encode_frame
start_forces_one_idr s t1 t2 p1 p2 i q e = ground arith

-- The cadence after the key frames among some packets.
unfoldable pub observed : IdrCadence → List Packet → IdrCadence
observed c [] = c
observed c (p ∷ ps) = observed (if p.is_keyframe then on_keyframe c p.pts else c) ps

on_packet_off :
    (aac : AacEncoder) (s : Impl) (p : Packet)
    → s.streaming ≡ false
    → on_packet aac s p ≡ record s {
      idr_cadence = if p.is_keyframe then on_keyframe s.idr_cadence p.pts else s.idr_cadence;
    }
unfolding on_packet observe_keyframe
on_packet_off aac s p h = elim (Bool-cases p.is_keyframe) [
  | inl key ↦ rw (key, h) refl
  | inr plain ↦ rw (plain, h) refl
]

-- While the stream is off, any run of packets reaches nothing but the key frame cadence, which
-- follows the key frames among them: no send, no sound, no drop, no statistics.
pub packets_off_air :
    (aac : AacEncoder) (s : Impl) (ps : List Packet)
    → s.streaming ≡ false
    → on_packets aac s ps ≡ record s { idr_cadence = observed s.idr_cadence ps }
unfolding on_packets observed
packets_off_air aac s [] h = refl
packets_off_air aac s (p ∷ ps) h = rw (on_packet_off aac s p h) (
    packets_off_air aac
      (record s {
        idr_cadence = if p.is_keyframe then on_keyframe s.idr_cadence p.pts else s.idr_cadence;
      })
      ps h)
