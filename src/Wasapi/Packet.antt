-- ===== src/Wasapi/Packet.antt =====
-- src/pipeline/audio/wasapi_capture.cpp: the packets of the device, one after the other.
use reji_studio.Base.{
  ℕ, ◌+◌, ◌*◌, ◌/◌, ◌%◌, ◌^◌, Bool, true, false, ◌&&◌, ◌||◌, not, List, [], ◌∷◌, ◌++◌, ◌==◌, ltb,
  if◌then◌else◌, add_u32,
}
use reji_studio.Base.Int.{ℤ, pos, ◌-ℤ◌, ltb_ℤ}
use reji_studio.Output.{is_zero}
use reji_studio.Wasapi.{Format, Wasapi, max_frames, max_channels}

-- How the samples get into the scratch buffer.
pub data Conversion : Type 0 where
  zeroed : Conversion
  copied : Conversion
  scaled_16 : Conversion
  scaled_32 : Conversion

pub data AudioCall : Type 0 where
  got_buffer : ℕ → AudioCall
  released_buffer : ℕ → AudioCall
  wrote_scratch : Conversion → ℕ → AudioCall
  delivered : ℕ → ℕ → ℕ → ℤ → AudioCall
  device_lost : AudioCall
  reported : ℕ → ℕ → ℤ → AudioCall

pub record Captured : Type 0 where
  pub state : Wasapi
  pub ok : Bool
  pub calls : List AudioCall

-- GetBuffer: frames, flags and the position in 100 ns.
pub data GetAnswer : Type 0 where
  got : ℕ → Bool → Bool → ℕ → GetAnswer
  invalidated : GetAnswer
  get_failed : GetAnswer

-- The answers to one packet: the buffer, the clock, whether the converted peak is below one step of
-- 16 bits, and whether ReleaseBuffer succeeds.
pub record PacketAnswers : Type 0 where
  pub get : GetAnswer
  pub now : ℤ
  pub quiet : Bool
  pub release_ok : Bool

abbrev pub conversion : Format → Bool → Conversion
conversion f silent =
    if silent
    then zeroed
    else if f.is_float
    then copied
    else if f.bits == 16
    then scaled_16
    else if f.bits == 32
    then scaled_32
    else zeroed

unfoldable pub convert_to_float : Format → ℕ → Bool → AudioCall
convert_to_float f frames silent =
    wrote_scratch (conversion f silent) (frames * f.channel_count % 2 ^ 32)

-- A window of five packets.
unfoldable pub note_glitch : Wasapi → Bool → Wasapi
note_glitch s glitch =
    let more =
      if glitch
      then record s {
        underrun_count = add_u32 s.underrun_count 1;
        jitter_glitches = s.jitter_glitches + 1;
      }
      else s in
    if ltb (s.jitter_count + 1) 5
    then record more { jitter_count = s.jitter_count + 1 }
    else record more { jitter_count = 0; jitter_glitches = 0 }

unfoldable pub note_silence : Wasapi → Bool → ℤ → Wasapi
note_silence s quiet now =
    if not quiet
    then record s { silence_start_us = pos 0; silence_logged = false }
    else if is_zero s.silence_start_us
    then record s { silence_start_us = now; silence_logged = false }
    else if not s.silence_logged && not (ltb_ℤ (now -ℤ s.silence_start_us) (pos 500_000))
    then record s { silence_logged = true }
    else s

unfoldable pub detect_silence_and_jitter : Wasapi → Bool → Bool → ℤ → Wasapi
unfolding note_glitch note_silence
detect_silence_and_jitter s glitch quiet now = note_silence (note_glitch s glitch) quiet now

-- A packet that is longer than the scratch buffer is cut.
unfoldable pub clip : Wasapi → ℕ → Wasapi × ℕ
clip s frames =
    if ltb max_frames frames
    then (
      record s { overrun_count = add_u32 s.overrun_count 1; frame_drops = add_u32 s.frame_drops 1 },
      max_frames,
    )
    else (s, frames)

-- From a buffer on: `available` frames, flags for silence and discontinuity, and its time.
unfoldable pub on_buffer : Wasapi → ℕ → Bool → Bool → ℤ → PacketAnswers → Captured
unfolding clip convert_to_float detect_silence_and_jitter
on_buffer s available silent glitch pts a =
    let cut = clip s available in
    let f = s.actual in
    if (f.channel_count == 0) || ltb max_channels f.channel_count
    then record {
      state = cut.0;
      ok = false;
      calls = got_buffer available ∷ released_buffer available ∷ [];
    }
    else record {
      state = detect_silence_and_jitter cut.0 glitch a.quiet pts;
      ok = a.release_ok;
      calls =
          got_buffer available
          ∷ convert_to_float f cut.1 silent
          ∷ delivered cut.1 f.channel_count f.rate pts
          ∷ released_buffer available
          ∷ [];
    }

-- qpc_100ns, or the clock where the device has none.
abbrev pub packet_time : ℕ → ℤ → ℤ
packet_time qpc now = if qpc == 0 then now else pos (qpc / 10)

unfoldable pub on_packet : Wasapi → PacketAnswers → GetAnswer → Captured
unfolding on_buffer
on_packet s a (got frames silent glitch qpc) =
    on_buffer s frames silent glitch (packet_time qpc a.now) a
on_packet s a invalidated = record { state = s; ok = false; calls = device_lost ∷ [] }
on_packet s a get_failed = record { state = s; ok = false; calls = [] }

-- while (SUCCEEDED(hr) && pkt > 0), over the packets that are ready.
unfoldable pub drain_packets : Wasapi → List PacketAnswers → Captured
drain_packets s [] = record { state = s; ok = true; calls = [] }
drain_packets s (a ∷ later) =
    let o = on_packet s a a.get in
    let rest = drain_packets o.state later in
    if o.ok then record rest { calls = o.calls ++ rest.calls } else o

-- Once a second: the rate, and the drops since the last report.
unfoldable pub publish_metrics : Wasapi → ℤ → Wasapi × List AudioCall
publish_metrics s now = if ltb_ℤ (now -ℤ s.last_metric_us) (pos 1_000_000) then (s, []) else (
  record s { last_metric_us = now; frame_drops = 0 },
  reported (s.actual.rate * s.actual.channel_count * 32 % 2 ^ 32 / 1000) s.frame_drops now ∷ [],
)

-- One pass of the capture loop: the wait times out, the wake event is set, the wait fails, or packets
-- are ready; with the clock at its end.
pub data Wakeup : Type 0 where
  timed_out : ℤ → Wakeup
  woken : Wakeup
  wait_failed : Wakeup
  audio_ready : List PacketAnswers → ℤ → Wakeup

unfoldable pub capture_pass : Wasapi → Wakeup → Captured
unfolding publish_metrics drain_packets
capture_pass s (timed_out now) =
    let m = publish_metrics s now in record { state = m.0; ok = true; calls = m.1 }
capture_pass s woken = record { state = s; ok = true; calls = [] }
capture_pass s wait_failed = record { state = s; ok = false; calls = [] }
capture_pass s (audio_ready ps now) =
    let o = drain_packets s ps in
    let m = publish_metrics o.state now in
    if o.ok then record { state = m.0; ok = true; calls = o.calls ++ m.1 } else o

-- capture_loop over the waits until one of its flags ends it.
unfoldable pub capture_loop : Wasapi → List Wakeup → Captured
unfolding capture_pass
capture_loop s [] = record { state = s; ok = true; calls = [] }
capture_loop s (w ∷ ws) =
    let o = capture_pass s w in
    let rest = capture_loop o.state ws in
    if o.ok then record rest { calls = o.calls ++ rest.calls } else o
