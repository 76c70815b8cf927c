-- ===== src/Wasapi/States.antt =====
-- The engine flags of wasapi_capture.cpp: running_, engine_active_ and the COM pointers.
use reji_studio.Base.{
  ℕ, ◌≡◌, Bool, true, false, ◌&&◌, ◌||◌, not, Option, none, some, List, [], ◌∷◌, ◌++◌, ◌∙◌, ap, sym,
  refl, arith, if◌then◌else◌,
}
use reji_studio.Base.Int.{ℤ}
use reji_studio.Wasapi.{Format, Wasapi, start, stop, on_device_change}
use reji_studio.Wasapi.Packet.{
  AudioCall, Captured, GetAnswer, got, invalidated, get_failed, PacketAnswers, clip, on_buffer,
  on_packet, packet_time, drain_packets, publish_metrics, Wakeup, timed_out, woken, wait_failed,
  audio_ready, capture_pass, capture_loop, detect_silence_and_jitter, note_glitch, note_silence,
}
use reji_studio.Wasapi.Engine.{
  OpenAnswers, Attempt, finish_open, open_mix, after_shared, try_shared, first_attempt,
  open_device_and_init_engine, release_engine, PassAnswers, run_capture, ensure_engine, heed_change,
  supervisor_pass,
}

-- The flags of the engine, and what it holds.
pub record Flags : Type 0 where
  pub runs : Bool
  pub is_active : Bool
  pub device : Bool
  pub audio : Bool
  pub capture : Bool

abbrev pub flags : Wasapi → Flags
flags s = record {
  runs = s.running;
  is_active = s.engine_active;
  device = s.has_device;
  audio = s.has_audio_client;
  capture = s.has_capture_client;
}

abbrev pub IsSteady : Wasapi → Type 0
IsSteady s =
    (s.running ≡ s.engine_active)
    × (not s.engine_active || (s.has_device && (s.has_audio_client && s.has_capture_client)) ≡ true)

buffer-flags :
    (s : Wasapi) (n : ℕ) (silent glitch : Bool) (pts : ℤ) (a : PacketAnswers)
    → flags (on_buffer s n silent glitch pts a).state ≡ flags s
unfolding on_buffer clip detect_silence_and_jitter note_glitch note_silence
buffer-flags s n silent glitch pts a = ground arith

packet-flags :
    (s : Wasapi) (a : PacketAnswers) (g : GetAnswer) → flags (on_packet s a g).state ≡ flags s
unfolding on_packet
packet-flags s a (got n silent glitch qpc) =
    buffer-flags s n silent glitch (packet_time qpc a.now) a
packet-flags s a invalidated = refl
packet-flags s a get_failed = refl

next-flags :
    (b : Bool) (s : Wasapi) (o rest : Captured)
    → flags o.state ≡ flags s
    → flags rest.state ≡ flags o.state
    → flags (if b then record rest { calls = o.calls ++ rest.calls } else o).state ≡ flags s
next-flags true s o rest p q = q ∙ p
next-flags false s o rest p q = p

drain-flags : (s : Wasapi) (ps : List PacketAnswers) → flags (drain_packets s ps).state ≡ flags s
unfolding drain_packets
drain-flags s [] = refl
drain-flags s (a ∷ later) =
    let o = on_packet s a a.get in
    next-flags o.ok s o (drain_packets o.state later) (packet-flags s a a.get)
      (drain-flags o.state later)

metrics-flags : (s : Wasapi) (now : ℤ) → flags (publish_metrics s now).0 ≡ flags s
unfolding publish_metrics
metrics-flags s now = ground arith

pass-flags : (s : Wasapi) (w : Wakeup) → flags (capture_pass s w).state ≡ flags s
unfolding capture_pass
pass-flags s (timed_out now) = metrics-flags s now
pass-flags s woken = refl
pass-flags s wait_failed = refl
pass-flags s (audio_ready ps now) =
    let o = drain_packets s ps in
    let m = publish_metrics o.state now in
    next-flags o.ok s o (record { state = m.0; ok = true; calls = m.1 }) (drain-flags s ps)
      (metrics-flags o.state now)

capture_loop-flags : (s : Wasapi) (ws : List Wakeup) → flags (capture_loop s ws).state ≡ flags s
unfolding capture_loop
capture_loop-flags s [] = refl
capture_loop-flags s (w ∷ ws) =
    let o = capture_pass s w in
    next-flags o.ok s o (capture_loop o.state ws) (pass-flags s w) (capture_loop-flags o.state ws)

by_flags : (s t : Wasapi) → flags t ≡ flags s → IsSteady s → IsSteady t
by_flags s t e h = (
  ap (λ f. f.runs) e ∙ h.0 ∙ sym (ap (λ f. f.is_active) e),
  ap (λ f. not f.is_active || (f.device && (f.audio && f.capture))) e ∙ h.1,
)

-- The capture loop, and what follows it.
run_capture-IsSteady : (s : Wasapi) (a : PassAnswers) → IsSteady s → IsSteady (run_capture s a).0
unfolding run_capture release_engine
run_capture-IsSteady s a h =
    let o = capture_loop s a.waits in
    ground (arith, by_flags s o.state (capture_loop-flags s a.waits) h)

-- An opening that succeeds holds the three; one that fails leaves the engine inactive.
abbrev IsOpened : Wasapi → Wasapi × Bool → Type 0
IsOpened s o =
    ((o.0.running ≡ s.running) × (o.0.engine_active ≡ s.engine_active))
    × (not o.1 || (o.0.has_device && (o.0.has_audio_client && o.0.has_capture_client)) ≡ true)

mix-IsOpened :
    (s : Wasapi) (a : OpenAnswers) (f : Option Format)
    → s.has_device ≡ true
    → s.has_audio_client ≡ true
    → IsOpened s (open_mix s a f)
unfolding open_mix finish_open
mix-IsOpened s a none d c = ground (arith, d, c)
mix-IsOpened s a (some f) d c = ground (arith, d, c)

shared-IsOpened :
    (s : Wasapi) (a : OpenAnswers) (t : Option Attempt)
    → s.has_device ≡ true
    → IsOpened s (after_shared s a t)
unfolding after_shared finish_open
shared-IsOpened s a none d = ground (arith, d)
shared-IsOpened s a (some t) d =
    let held = record s { has_audio_client = true } in
    ground (arith, d, mix-IsOpened held a a.mix_format d refl)

open-IsOpened : (s : Wasapi) (a : OpenAnswers) → IsOpened s (open_device_and_init_engine s a)
unfolding open_device_and_init_engine
open-IsOpened s a =
    let t = first_attempt s.cfg a in
    let found = record s { has_device = true; using_exclusive = t.works } in
    ground (arith, shared-IsOpened found a (try_shared t a) refl)

-- After an opening with result b, and Start with result c.
after_open :
    (s t : Wasapi) (b c : Bool) (a : PassAnswers)
    → IsOpened s (t, b)
    → s.engine_active ≡ false
    → IsSteady s
    → IsSteady
        (if not b
          then (t, [])
          else if not c
          then (release_engine t, [])
          else run_capture (record t { engine_active = true; running = true }) a).0
unfolding release_engine
after_open s t false c a p e h = (
  p.0.0 ∙ h.0 ∙ sym p.0.1,
  ap (λ b. not b || (t.has_device && (t.has_audio_client && t.has_capture_client))) (p.0.1 ∙ e),
)
after_open s t true false a p e h = (refl, refl)
after_open s t true true a p e h =
    run_capture-IsSteady (record t { engine_active = true; running = true }) a (refl, p.1)

ensure-IsSteady : (s : Wasapi) (a : PassAnswers) → IsSteady s → IsSteady (ensure_engine s a).0
unfolding ensure_engine release_engine
ensure-IsSteady s a h =
    let o = open_device_and_init_engine s a.device in
    let up = record o.0 { engine_active = true; running = true } in
    elim s.engine_active
        as (λ b.
          s.engine_active ≡ b
          → IsSteady
              (if b
                then run_capture s a
                else if not o.1
                then (o.0, [])
                else if not a.started
                then (release_engine o.0, [])
                else run_capture up a).0) [
                  | true ↦ λ e. run_capture-IsSteady s a h
                  | false ↦ λ e. after_open s o.0 o.1 a.started a (open-IsOpened s a.device) e h
                ]
      refl

heed-IsSteady : (s : Wasapi) → IsSteady s → IsSteady (heed_change s)
unfolding heed_change release_engine
heed-IsSteady s h = ground (arith, h)

either_pass :
    (b : Bool) (s : Wasapi) (r : Wasapi × List AudioCall)
    → IsSteady s
    → IsSteady r.0
    → IsSteady (if b then r else (s, [])).0
either_pass true s r h k = k
either_pass false s r h k = h

supervisor-IsSteady : (s : Wasapi) (a : PassAnswers) → IsSteady s → IsSteady (supervisor_pass s a).0
unfolding supervisor_pass
supervisor-IsSteady s a h =
    either_pass s.start_requested s (ensure_engine (heed_change s) a) h
      (ensure-IsSteady (heed_change s) a (heed-IsSteady s h))

-- What the client, the system and the supervisor do to a capture, one after the other.
pub data Move : Type 0 where
  asks_start : Move
  asks_stop : Move
  device_changes : Move
  supervises : PassAnswers → Move

unfoldable pub move : Wasapi → Move → Wasapi
unfolding start stop on_device_change supervisor_pass
move s asks_start = (start s).0
move s asks_stop = (stop s).0
move s device_changes = on_device_change s
move s (supervises a) = (supervisor_pass s a).0

abbrev pub moves : Wasapi → List Move → Wasapi
moves s [] = s
moves s (m ∷ ms) = moves (move s m) ms

start-IsSteady : (s : Wasapi) → IsSteady s → IsSteady (start s).0
unfolding start
start-IsSteady s h = ground (arith, h)

stop-IsSteady : (s : Wasapi) → IsSteady s → IsSteady (stop s).0
unfolding stop
stop-IsSteady s h = ground (arith, h)

move-IsSteady : (s : Wasapi) (m : Move) → IsSteady s → IsSteady (move s m)
unfolding move
move-IsSteady s asks_start h = start-IsSteady s h
move-IsSteady s asks_stop h = stop-IsSteady s h
move-IsSteady s device_changes h = h
move-IsSteady s (supervises a) h = supervisor-IsSteady s a h

-- From a steady capture, over any starts, stops, device changes and passes of the supervisor with any
-- answers of the device: the capture says that it runs exactly while its engine is active, and an
-- active engine holds its device, its audio client and its capture client.
pub moves-IsSteady : (s : Wasapi) (ms : List Move) → IsSteady s → IsSteady (moves s ms)
moves-IsSteady s [] h = h
moves-IsSteady s (m ∷ ms) h = moves-IsSteady (move s m) ms (move-IsSteady s m h)

abbrev pub released : Flags
released = record {
  runs = false;
  is_active = false;
  device = false;
  audio = false;
  capture = false;
}

run_capture-releases :
    (s : Wasapi) (a : PassAnswers)
    → a.still_requested && (capture_loop s a.waits).ok ≡ false
    → flags (run_capture s a).0 ≡ released
unfolding run_capture release_engine
run_capture-releases s a n = ground (arith, n)

ensure-releases :
    (s : Wasapi) (a : PassAnswers)
    → s.engine_active ≡ true
    → a.still_requested && (capture_loop s a.waits).ok ≡ false
    → flags (ensure_engine s a).0 ≡ released
unfolding ensure_engine
ensure-releases s a e n = ground (arith, e, run_capture-releases s a n)

-- A pass that finds the capture asked for, after whose capture loop it is asked for no more, ends with
-- the engine released, whether the loop failed or not; and a pass whose capture loop fails ends so too.
-- This holds where the engine is active and its device unchanged at the start of the pass.
pub supervisor_pass-releases :
    (s : Wasapi) (a : PassAnswers)
    → s.start_requested ≡ true
    → s.device_dirty ≡ false
    → s.engine_active ≡ true
    → a.still_requested && (capture_loop (record s { device_dirty = false }) a.waits).ok ≡ false
    → flags (supervisor_pass s a).0
      ≡ record { runs = false; is_active = false; device = false; audio = false; capture = false }
unfolding supervisor_pass heed_change
supervisor_pass-releases s a q d e n =
    let clean = record s { device_dirty = false } in
    ap (λ b. flags (if b then ensure_engine (heed_change s) a else (s, [])).0) q
    ∙ ap (λ b. flags (ensure_engine (if b then release_engine clean else clean) a).0) d
    ∙ ensure-releases clean a e n
