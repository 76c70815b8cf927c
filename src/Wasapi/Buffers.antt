-- ===== src/Wasapi/Buffers.antt =====
-- The device's buffers and the scratch buffer in wasapi_capture.cpp.
use reji_studio.Base.{
  ℕ, ◌*◌, ◌≤◌, ◌≡◌, Bool, true, false, List, [], ◌∷◌, ◌++◌, ◌∙◌, ap, ap₂, sym, refl, arith, All,
  All-append, if◌then◌else◌, append_assoc,
}
use reji_studio.Base.Int.{ℤ}
use reji_studio.Wasapi.{Wasapi, max_frames, max_channels}
use reji_studio.Wasapi.Packet.{
  AudioCall, got_buffer, released_buffer, wrote_scratch, delivered, Captured, GetAnswer, got,
  invalidated, get_failed, PacketAnswers, convert_to_float, clip, on_buffer, on_packet, packet_time,
  drain_packets, publish_metrics, Wakeup, timed_out, woken, wait_failed, audio_ready, capture_pass,
  capture_loop,
}

-- The frames of the buffers a journal gets, and of those it gives back, in order.
abbrev pub got_of : AudioCall → List ℕ
got_of (got_buffer n) = n ∷ []
got_of _ = []

abbrev pub released_of : AudioCall → List ℕ
released_of (released_buffer n) = n ∷ []
released_of _ = []

abbrev pub gots : List AudioCall → List ℕ
gots [] = []
gots (c ∷ cs) = got_of c ++ gots cs

abbrev pub releases : List AudioCall → List ℕ
releases [] = []
releases (c ∷ cs) = released_of c ++ releases cs

gots-append : (xs ys : List AudioCall) → gots (xs ++ ys) ≡ gots xs ++ gots ys
gots-append [] ys = refl
gots-append (c ∷ xs) ys =
    ap (λ l. got_of c ++ l) (gots-append xs ys) ∙ sym (append_assoc (got_of c) (gots xs) (gots ys))

releases-append : (xs ys : List AudioCall) → releases (xs ++ ys) ≡ releases xs ++ releases ys
releases-append [] ys = refl
releases-append (c ∷ xs) ys =
    ap (λ l. released_of c ++ l) (releases-append xs ys)
    ∙ sym (append_assoc (released_of c) (releases xs) (releases ys))

-- A write or a delivery that stays within kMaxFrames frames of kMaxChannels channels.
abbrev pub IsInScratch : AudioCall → Type 0
IsInScratch (wrote_scratch how n) = n ≤ max_frames * max_channels
IsInScratch (delivered frames channels rate pts) = (frames ≤ max_frames) × (channels ≤ max_channels)
IsInScratch _ = Unit

abbrev IsSound : List AudioCall → Type 0
IsSound cs = (gots cs ≡ releases cs) × All IsInScratch cs

IsSound-append : (xs ys : List AudioCall) → IsSound xs → IsSound ys → IsSound (xs ++ ys)
IsSound-append xs ys p q = (
  gots-append xs ys ∙ ap₂ (λ a b. a ++ b) p.0 q.0 ∙ sym (releases-append xs ys),
  All-append IsInScratch xs ys p.1 q.1,
)

clip_bound : (s : Wasapi) (n : ℕ) → (clip s n).1 ≤ max_frames
unfolding clip
clip_bound s n = ground arith

scratch_bound : (frames channels : ℕ) → frames ≤ 8192 → channels ≤ 8 → frames * channels ≤ 65_536
scratch_bound frames channels p q = grind arith

on_buffer-IsSound :
    (s : Wasapi) (n : ℕ) (silent glitch : Bool) (pts : ℤ) (a : PacketAnswers)
    → IsSound (on_buffer s n silent glitch pts a).calls
unfolding on_buffer convert_to_float
on_buffer-IsSound s n silent glitch pts a =
    ground
      (arith, clip_bound s n, scratch_bound (clip s n).1 s.actual.channel_count (clip_bound s n))

on_packet-IsSound :
    (s : Wasapi) (a : PacketAnswers) (g : GetAnswer) → IsSound (on_packet s a g).calls
unfolding on_packet
on_packet-IsSound s a (got n silent glitch qpc) =
    on_buffer-IsSound s n silent glitch (packet_time qpc a.now) a
on_packet-IsSound s a invalidated = (refl, (tt, tt))
on_packet-IsSound s a get_failed = (refl, tt)

-- One stage and, unless it failed, the rest.
IsSound-next :
    (b : Bool) (o rest : Captured)
    → IsSound o.calls
    → IsSound rest.calls
    → IsSound (if b then record rest { calls = o.calls ++ rest.calls } else o).calls
IsSound-next true o rest p q = IsSound-append o.calls rest.calls p q
IsSound-next false o rest p q = p

drain-IsSound : (s : Wasapi) (ps : List PacketAnswers) → IsSound (drain_packets s ps).calls
unfolding drain_packets
drain-IsSound s [] = (refl, tt)
drain-IsSound s (a ∷ later) =
    let o = on_packet s a a.get in
    IsSound-next o.ok o (drain_packets o.state later) (on_packet-IsSound s a a.get)
      (drain-IsSound o.state later)

metrics-IsSound : (s : Wasapi) (now : ℤ) → IsSound (publish_metrics s now).1
unfolding publish_metrics
metrics-IsSound s now = ground arith

pass-IsSound : (s : Wasapi) (w : Wakeup) → IsSound (capture_pass s w).calls
unfolding capture_pass
pass-IsSound s (timed_out now) = metrics-IsSound s now
pass-IsSound s woken = (refl, tt)
pass-IsSound s wait_failed = (refl, tt)
pass-IsSound s (audio_ready ps now) =
    let o = drain_packets s ps in
    let m = publish_metrics o.state now in
    IsSound-next o.ok o (record { state = m.0; ok = true; calls = m.1 }) (drain-IsSound s ps)
      (metrics-IsSound o.state now)

-- Over any waits, packets and failures of the capture loop, the loop gives back to the device exactly
-- the buffers it got, in their order and with the count of frames the device named, even where it cuts
-- a packet or refuses its channels, and no conversion or delivery reaches past the scratch buffer of
-- 8192 frames of 8 channels.
pub capture_loop-returns_buffers :
    (s : Wasapi) (ws : List Wakeup)
    → (gots (capture_loop s ws).calls ≡ releases (capture_loop s ws).calls)
      × All IsInScratch (capture_loop s ws).calls
unfolding capture_loop
capture_loop-returns_buffers s [] = (refl, tt)
capture_loop-returns_buffers s (w ∷ ws) =
    let o = capture_pass s w in
    IsSound-next o.ok o (capture_loop o.state ws) (pass-IsSound s w)
      (capture_loop-returns_buffers o.state ws)
