-- ===== src/Wasapi/Drops.antt =====
-- The counter frame_drops_ of wasapi_capture.cpp.
use reji_studio.Base.{
  ℕ, ◌+◌, ◌%◌, ◌^◌, ◌≡◌, Bool, true, false, List, [], ◌∷◌, ◌++◌, arith, if◌then◌else◌, ltb,
}
use reji_studio.Base.Int.{ℤ}
use reji_studio.Wasapi.{Wasapi, max_frames}
use reji_studio.Wasapi.Packet.{
  AudioCall, got_buffer, reported, Captured, GetAnswer, got, invalidated, get_failed, PacketAnswers,
  convert_to_float, clip, on_buffer, on_packet, packet_time, drain_packets, publish_metrics, Wakeup,
  timed_out, woken, wait_failed, audio_ready, capture_pass, capture_loop, detect_silence_and_jitter,
  note_glitch, note_silence,
}

-- One for a buffer that is longer than the scratch buffer, and the drops in the reports.
abbrev pub cut_of : AudioCall → ℕ
cut_of (got_buffer n) = if ltb max_frames n then 1 else 0
cut_of _ = 0

abbrev pub drops_of : AudioCall → ℕ
drops_of (reported kbps drops now) = drops
drops_of _ = 0

abbrev pub cuts : List AudioCall → ℕ
cuts [] = 0
cuts (c ∷ cs) = cut_of c + cuts cs

abbrev pub reported_drops : List AudioCall → ℕ
reported_drops [] = 0
reported_drops (c ∷ cs) = drops_of c + reported_drops cs

cuts-append : (xs ys : List AudioCall) → cuts (xs ++ ys) ≡ cuts xs + cuts ys
cuts-append [] ys = omega arith
cuts-append (c ∷ xs) ys = omega (arith, cuts-append xs ys)

reported-append :
    (xs ys : List AudioCall) → reported_drops (xs ++ ys) ≡ reported_drops xs + reported_drops ys
reported-append [] ys = omega arith
reported-append (c ∷ xs) ys = omega (arith, reported-append xs ys)

abbrev IsAccounted : Wasapi → Wasapi → List AudioCall → Type 0
IsAccounted s t cs =
    (reported_drops cs + t.frame_drops) % 2 ^ 32 ≡ (s.frame_drops + cuts cs) % 2 ^ 32

IsAccounted-append :
    (s t u : Wasapi) (xs ys : List AudioCall)
    → IsAccounted s t xs
    → IsAccounted t u ys
    → IsAccounted s u (xs ++ ys)
IsAccounted-append s t u xs ys p q = omega (arith, p, q, cuts-append xs ys, reported-append xs ys)

detect-drops :
    (s : Wasapi) (glitch quiet : Bool) (now : ℤ)
    → (detect_silence_and_jitter s glitch quiet now).frame_drops ≡ s.frame_drops
unfolding detect_silence_and_jitter note_glitch note_silence
detect-drops s glitch quiet now = ground arith

on_buffer-IsAccounted :
    (s : Wasapi) (n : ℕ) (silent glitch : Bool) (pts : ℤ) (a : PacketAnswers)
    → let o = on_buffer s n silent glitch pts a in IsAccounted s o.state o.calls
unfolding on_buffer clip convert_to_float
on_buffer-IsAccounted s n silent glitch pts a =
    ground (arith, detect-drops (clip s n).0 glitch a.quiet pts)

on_packet-IsAccounted :
    (s : Wasapi) (a : PacketAnswers) (g : GetAnswer)
    → let o = on_packet s a g in IsAccounted s o.state o.calls
unfolding on_packet
on_packet-IsAccounted s a (got n silent glitch qpc) =
    on_buffer-IsAccounted s n silent glitch (packet_time qpc a.now) a
on_packet-IsAccounted s a invalidated = omega arith
on_packet-IsAccounted s a get_failed = omega arith

next-IsAccounted :
    (b : Bool) (s : Wasapi) (o rest : Captured)
    → IsAccounted s o.state o.calls
    → IsAccounted o.state rest.state rest.calls
    → let r = if b then record rest { calls = o.calls ++ rest.calls } else o in
      IsAccounted s r.state r.calls
next-IsAccounted true s o rest p q = IsAccounted-append s o.state rest.state o.calls rest.calls p q
next-IsAccounted false s o rest p q = p

drain-IsAccounted :
    (s : Wasapi) (ps : List PacketAnswers)
    → let o = drain_packets s ps in IsAccounted s o.state o.calls
unfolding drain_packets
drain-IsAccounted s [] = omega arith
drain-IsAccounted s (a ∷ later) =
    let o = on_packet s a a.get in
    next-IsAccounted o.ok s o (drain_packets o.state later) (on_packet-IsAccounted s a a.get)
      (drain-IsAccounted o.state later)

metrics-IsAccounted :
    (s : Wasapi) (now : ℤ) → let m = publish_metrics s now in IsAccounted s m.0 m.1
unfolding publish_metrics
metrics-IsAccounted s now = ground arith

pass-IsAccounted :
    (s : Wasapi) (w : Wakeup) → let o = capture_pass s w in IsAccounted s o.state o.calls
unfolding capture_pass
pass-IsAccounted s (timed_out now) = metrics-IsAccounted s now
pass-IsAccounted s woken = omega arith
pass-IsAccounted s wait_failed = omega arith
pass-IsAccounted s (audio_ready ps now) =
    let o = drain_packets s ps in
    let m = publish_metrics o.state now in
    next-IsAccounted o.ok s o (record { state = m.0; ok = true; calls = m.1 })
      (drain-IsAccounted s ps) (metrics-IsAccounted o.state now)

-- Over any run of the capture loop, the drops it reports and the drops it still holds are together
-- those it held before and one for each buffer that was too long, modulo 2^32.
pub capture_loop-accounts_drops :
    (s : Wasapi) (ws : List Wakeup)
    → let o = capture_loop s ws in
      (reported_drops o.calls + o.state.frame_drops) % 2 ^ 32
      ≡ (s.frame_drops + cuts o.calls) % 2 ^ 32
unfolding capture_loop
capture_loop-accounts_drops s [] = omega arith
capture_loop-accounts_drops s (w ∷ ws) =
    let o = capture_pass s w in
    next-IsAccounted o.ok s o (capture_loop o.state ws) (pass-IsAccounted s w)
      (capture_loop-accounts_drops o.state ws)
