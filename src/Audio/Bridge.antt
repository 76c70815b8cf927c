-- ===== src/Audio/Bridge.antt =====
-- src/pipeline/audio/audio_encode_bridge.h and audio_encode_bridge.cpp: from the ring to the encoder
-- and on to the transport, on the thread that encodes. The AAC encoder behind it is an argument:
-- whether it starts, whether it has a configuration to send, and which frames a chunk makes it hand
-- to `on_aac`. It is known by the chunks that it has been given since it started.
pub mod Drain
use reji_studio.Base.{
  ℕ, zero, suc, ◌+◌, ◌≡◌, Bool, true, false, ◌&&◌, not, Option, none, some, List, [], ◌∷◌, ◌++◌,
  arith, if◌then◌else◌,
}
use reji_studio.Base.Int.{ℤ, pos, ◌-ℤ◌, ◌/ℤ◌}
use reji_studio.Audio.Ring.{AudioRing, Chunk, Delivered, push, consume, capacity}
use reji_studio.Audio.Format.{format_matches, asc_retry_needed}
use reji_studio.Audio.Sync.{should_warn_av_drift, no_prior_warn}
use reji_studio.Output.{OutputSubsystem, TransportAnswers, set_audio_config, send_audio}
use reji_studio.Trace.{Event, Trace}

pub record AudioEncodeBridge : Type 0 where
  pub ring : AudioRing
  pub fed : List Delivered
  pub has_out : Bool
  pub sample_rate : ℕ
  pub channels : ℕ
  pub bitrate_bps : ℕ
  pub enabled : Bool
  pub encoder_ready : Bool
  pub encoder_failed : Bool
  pub asc_sent : Bool
  pub format_mismatch_logged : Bool
  pub last_audio_pts_us : ℤ
  pub last_drift_warn_ms : ℤ

abbrev pub new_bridge : AudioRing → AudioEncodeBridge
new_bridge ring = record {
  ring = ring;
  fed = [];
  has_out = false;
  sample_rate = 0;
  channels = 0;
  bitrate_bps = 0;
  enabled = false;
  encoder_ready = false;
  encoder_failed = false;
  asc_sent = false;
  format_mismatch_logged = false;
  last_audio_pts_us = pos 0;
  last_drift_warn_ms = no_prior_warn;
}

-- What the AAC encoder does: `frames fed chunk` are the times of the frames that come out when
-- `chunk` is given after `fed`, and `flushed fed` those that its own drain brings out.
pub record AacEncoder : Type 0 where
  pub init_ok : Bool
  pub has_asc : Bool
  pub frames : List Delivered → Delivered → List ℤ
  pub flushed : List Delivered → List ℤ

-- What surrounds one drain: the transport, its answers when the encoder is started and later on.
pub record Wire : Type 0 where
  pub output : OutputSubsystem
  pub at_start : TransportAnswers
  pub later : TransportAnswers

unfoldable pub configure : AudioEncodeBridge → ℕ → ℕ → ℕ → Bool → AudioEncodeBridge
configure b sample_rate channels bitrate_bps has_out = record b {
  sample_rate = sample_rate;
  channels = channels;
  bitrate_bps = bitrate_bps;
  has_out = has_out;
  enabled = true;
}

unfoldable pub push_chunk : AudioEncodeBridge → Chunk → AudioEncodeBridge
push_chunk b c = if not b.enabled then b else record b { ring = (push b.ring c).0 }

-- The bridge and the calls on the transport after one frame of the encoder.
unfoldable pub on_aac :
    AudioEncodeBridge → OutputSubsystem → TransportAnswers → ℤ → AudioEncodeBridge × Trace
on_aac b o a pts_us =
    (record b { last_audio_pts_us = pts_us }, if b.has_out then (send_audio o a pts_us).0 else [])

pub on_frames :
    AudioEncodeBridge → OutputSubsystem → TransportAnswers → List ℤ → AudioEncodeBridge × Trace
on_frames b o a [] = (b, [])
on_frames b o a (pts ∷ rest) =
    let first = on_aac b o a pts in
    let more = on_frames first.0 o a rest in (more.0, first.1 ++ more.1)

unfoldable pub send_asc_if_ready :
    AudioEncodeBridge → AacEncoder → OutputSubsystem → TransportAnswers → AudioEncodeBridge × Trace
send_asc_if_ready b e o a =
    let sent = set_audio_config o a in
    if b.has_out && e.has_asc then (record b { asc_sent = sent.1 }, sent.0) else (b, [])

-- The flag says whether there is an encoder.
unfoldable pub ensure_encoder :
    AudioEncodeBridge → AacEncoder → Wire → AudioEncodeBridge × Trace × Bool
unfolding send_asc_if_ready
ensure_encoder b e w =
    if b.encoder_ready
    then (b, [], true)
    else if b.encoder_failed
    then (b, [], false)
    else if not e.init_ok
    then (record b { encoder_failed = true }, [], false)
    else let asc = send_asc_if_ready (record b { fed = [] }) e w.output w.at_start in
      (record (asc.0) { encoder_ready = true }, asc.1, true)

abbrev pub matches : AudioEncodeBridge → Delivered → Bool
matches b d = format_matches d.channels d.sample_rate b.channels b.sample_rate

-- What the drain does to one chunk.
unfoldable pub take_chunk :
    AudioEncodeBridge → AacEncoder → Wire → Delivered → AudioEncodeBridge × Trace
unfolding on_frames on_aac
take_chunk b e w d =
    if not (matches b d)
    then (record b { format_mismatch_logged = true; enabled = false }, [])
    else on_frames (record b { fed = b.fed ++ (d ∷ []) }) w.output w.later (e.frames b.fed d)

-- while (ring_.consume(...)) {}
pub consume_all : ℕ → AudioEncodeBridge → AacEncoder → Wire → AudioEncodeBridge × Trace
unfolding take_chunk
consume_all zero b e w = (b, [])
consume_all (suc fuel) b e w = elim (consume b.ring).1 [
  | none ↦ (b, [])
  | some d ↦
      let one = take_chunk (record b { ring = (consume b.ring).0 }) e w d in
      let rest = consume_all fuel one.0 e w in (rest.0, one.1 ++ rest.1)
]

-- The valve: the last warning's time moves when the drift is past the threshold.
unfoldable pub drift_valve : AudioEncodeBridge → ℤ → AudioEncodeBridge × Bool
drift_valve b video_pts_us =
    let drift_ms = (b.last_audio_pts_us -ℤ video_pts_us) /ℤ 1000 in
    let now_ms = video_pts_us /ℤ 1000 in
    if should_warn_av_drift drift_ms now_ms b.last_drift_warn_ms
    then (record b { last_drift_warn_ms = now_ms }, true)
    else (b, false)

-- The bridge, the calls on the transport, and whether the drift was reported.
unfoldable pub drain : AudioEncodeBridge → AacEncoder → Wire → ℤ → AudioEncodeBridge × Trace × Bool
unfolding ensure_encoder send_asc_if_ready drift_valve
drain b e w video_pts_us =
    if not b.enabled
    then (b, [], false)
    else let started = ensure_encoder b e w in
      if not started.2
      then (started.0, [], false)
      else let retried =
          if asc_retry_needed started.0.encoder_ready started.0.asc_sent
          then send_asc_if_ready started.0 e w.output w.later
          else (started.0, []) in
        let drained = consume_all (suc capacity) retried.0 e w in
        let valve = drift_valve drained.0 video_pts_us in
        (valve.0, started.1 ++ (retried.1 ++ drained.1), valve.1)

unfoldable pub shutdown : AudioEncodeBridge → AacEncoder → Wire → AudioEncodeBridge × Trace
unfolding on_frames
shutdown b e w =
    let off = record b { enabled = false } in
    let last = on_frames off w.output w.later (e.flushed b.fed) in
    if b.encoder_ready
    then (record (last.0) { encoder_ready = false; asc_sent = false }, last.1)
    else (off, [])
