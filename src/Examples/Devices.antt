-- ===== src/Examples/Devices.antt =====
-- The valve, the row copy, the SRT transport and the sound device at concrete inputs.
use reji_studio.Base.{
  if◌then◌else◌, ◌*◌, ltb, ◌&&◌, min, ℕ, ◌+◌, ◌-◌, ◌≤◌, ◌≡◌, refl, Bool, true, false, none, some,
  List, [], ◌∷◌, ◌++◌, arith, All,
}
use reji_studio.Base.Int.{pos, sub_ℕ}
use reji_studio.Seh
use reji_studio.Seh.{SehSite}
use reji_studio.Seh.Valve.{AvEvent, recent, replay, seh_register_av-opens_on_three}
use reji_studio.Seh.Opens.{opens, valve_opens}
use reji_studio.Copy.{copy_mapped_rows}
use reji_studio.Copy.Rows.{copy_mapped_rows-exact}
use reji_studio.Srt.{SrtConfig, Registry, Srt, new_srt}
use reji_studio.Srt.Setup.{SetupAnswers, pending, init_internal}
use reji_studio.Srt.Worker.{PollEvent, WorkerAnswers}
use reji_studio.Srt.Send.{SendAnswer}
use reji_studio.Srt.Close
use reji_studio.Srt.Losses.{Action, act_all, losses, connections, armed, losses_bounded}
use reji_studio.Srt.Lives.{socket, opened, closed, owns}
use reji_studio.Srt.Lives.Life.{
  lived, first_life-closes_all, second_life-closes_nothing, first_life-refs,
}
use reji_studio.Wasapi.{Wasapi}
use reji_studio.Wasapi.Packet.{PacketAnswers, got, Wakeup, capture_loop}
use reji_studio.Wasapi.Buffers.{gots, releases, IsInScratch, capture_loop-returns_buffers}
use reji_studio.Wasapi.States.{IsSteady, Move, moves, moves-IsSteady}

abbrev faults : List AvEvent
faults =
    (record { site = SehSite.cmd_drain; time = 40_000 }
      ∷ record { site = SehSite.srt_send; time = 30_000 }
      ∷ record { site = SehSite.srt_send; time = 20_000 }
      ∷ [])

abbrev third : AvEvent
third = record { site = SehSite.srt_send; time = 50_000 }

third_opens : (Seh.seh_register_av (replay faults) SehSite.srt_send 50_000).1 ≡ true
unfolding Seh.seh_register_av Seh.av_cell Seh.site_index
third_opens = refl

seh_register_av-opens_on_three_example :
    3 ≤ recent (Seh.site_index SehSite.srt_send) (50_000 - 60_000) (third ∷ faults)
unfolding Seh.site_index
seh_register_av-opens_on_three_example =
    seh_register_av-opens_on_three third faults
      (
        (omega arith, (omega arith, (omega arith, tt))),
        (
          omega arith,
          (
            (omega arith, (omega arith, tt)),
            (omega arith, ((omega arith, tt), (omega arith, (tt, (omega arith, tt))))),
          ),
        ),
      )
      third_opens

valve_opens_example :
    opens Seh.fresh_table SehSite.srt_send (1000 ∷ 2000 ∷ 61_000 ∷ 61_000 ∷ 61_000 ∷ []) ≡ true
unfolding Seh.site_index
valve_opens_example =
    valve_opens Seh.fresh_table SehSite.srt_send 1000 (2000 ∷ 61_000 ∷ 61_000 ∷ 61_000 ∷ [])
      (omega arith) (omega arith) (omega arith)
      (
        omega arith,
        (
          omega arith,
          (
            omega arith,
            (omega arith, (omega arith, (omega arith, (omega arith, (omega arith, tt))))),
          ),
        ),
      )
      (omega arith) (omega arith)

-- Three violations within 12 ms, on both sides of the end of a window, do not open the valve.
straddling_window :
    opens Seh.fresh_table SehSite.srt_send (1000 ∷ 59_990 ∷ 60_001 ∷ 60_002 ∷ []) ≡ false
unfolding Seh.seh_register_av Seh.av_cell Seh.site_index
straddling_window = refl

copy_mapped_rows-exact_example :
    copy_mapped_rows (λ a. 9) 8 (λ a. a) 6 3 (2 * 8 + 5)
    ≡ (if ltb 2 3 && ltb 5 (min 6 8) then 2 * 6 + 5 else 9)
copy_mapped_rows-exact_example = copy_mapped_rows-exact (λ a. 9) 8 (λ a. a) 6 3 2 5 (omega arith)

abbrev caller : SrtConfig
caller = record {
  host_parses = true;
  latency_ms = 200;
  bandwidth_kbps = 6000;
  caller_mode = true;
  has_lost_callback = true;
  has_metrics_callback = true;
}

abbrev net : SetupAnswers
net = record {
  com_ok = true;
  startup_ok = true;
  socket = some 5;
  options = λ i. true;
  connect = pending;
  bind_ok = true;
  listen_ok = true;
  epoll = some 6;
  add_ok = true;
}

abbrev writable : PollEvent
writable = record { fd = 5; has_err = false; has_in = false; has_out_or_connect = true }

abbrev broken : PollEvent
broken = record { fd = 5; has_err = true; has_in = false; has_out_or_connect = false }

abbrev seen : Bool → WorkerAnswers
seen b = record { accepted = none; options = λ i. true; is_connected = b }

abbrev traffic : List Action
traffic =
    (Action.polled writable (seen true)
      ∷ Action.packet true 1316 SendAnswer.sent 0
      ∷ Action.packet true 1316 SendAnswer.gone 0
      ∷ Action.polled broken (seen false)
      ∷ Action.rate 3000 true
      ∷ [])

abbrev open_srt : Srt
open_srt = record new_srt {
  sock = some 5;
  epoll_id = some 6;
  cfg = caller;
  initialized = true;
  connected = true;
}

losses_bounded_example :
    losses (act_all 200 open_srt traffic).1 ≤ connections 200 open_srt traffic + armed open_srt
losses_bounded_example = losses_bounded 200 open_srt traffic refl

-- The library as another transport uses it.
abbrev shared : Registry
shared = record { started = true; ok = true; refs = pos 1 }

first_life-closes_all_example :
    let life = lived 200 shared new_srt caller net traffic in
    let down = (Close.shutdown shared life.0).1 in
    (opened (socket 5) (life.1 ++ down.calls) ≡ closed (socket 5) (life.1 ++ down.calls))
    × (owns (socket 5) down.state ≡ 0)
first_life-closes_all_example =
    first_life-closes_all (socket 5) 200 shared shared new_srt caller net traffic refl refl refl
      refl

abbrev closed_srt : Srt
closed_srt = record new_srt { already_cleaned_up = true }

second_life-closes_nothing_example :
    let life = lived 200 shared closed_srt caller net traffic in
    let down = Close.shutdown shared life.0 in
    (down.1.calls ≡ [])
    × ((down.0 ≡ shared)
        × (opened (socket 5) life.1 + owns (socket 5) closed_srt
            ≡ closed (socket 5) life.1 + owns (socket 5) down.1.state))
second_life-closes_nothing_example =
    second_life-closes_nothing (socket 5) 200 shared shared closed_srt caller net traffic refl refl
      refl

first_life-refs_example :
    let bare = record caller { has_lost_callback = false } in
    let opened_by = (init_internal 200 shared new_srt bare net).0 in
    let life = lived 200 shared new_srt bare net [] in
    (Close.shutdown opened_by life.0).0.refs ≡ sub_ℕ 1 1
first_life-refs_example =
    first_life-refs 200 shared new_srt (record caller { has_lost_callback = false }) net [] 1 refl
      refl refl refl refl

abbrev listening : Wasapi
listening = record {
  cfg = record {
    exclusive_mode = false;
    sample_rate = 48_000;
    channels = 2;
    bit_depth = 32;
    buffer_ms = 20;
    loopback = true;
    has_device_id = false;
  };
  initialized = true;
  start_requested = true;
  stop_thread = false;
  running = true;
  device_dirty = false;
  engine_active = true;
  has_device = true;
  has_audio_client = true;
  has_capture_client = true;
  has_mix_format = false;
  using_exclusive = false;
  actual = record { rate = 48_000; channel_count = 2; bits = 32; is_float = true };
  buffer_frames = 960;
  overrun_count = 0;
  underrun_count = 0;
  frame_drops = 0;
  jitter_count = 0;
  jitter_glitches = 0;
  silence_start_us = pos 0;
  silence_logged = false;
  last_metric_us = pos 0;
}

abbrev heard : ℕ → PacketAnswers
heard n = record { get = got n false false 0; now = pos 5; quiet = false; release_ok = true }

abbrev waits : List Wakeup
waits = Wakeup.audio_ready (heard 480 ∷ heard 9000 ∷ []) (pos 2_000_000) ∷ Wakeup.woken ∷ []

capture_loop-returns_buffers_example :
    (gots (capture_loop listening waits).calls ≡ releases (capture_loop listening waits).calls)
    × All IsInScratch (capture_loop listening waits).calls
capture_loop-returns_buffers_example = capture_loop-returns_buffers listening waits

moves-IsSteady_example : IsSteady (moves listening (Move.device_changes ∷ Move.asks_stop ∷ []))
moves-IsSteady_example =
    moves-IsSteady listening (Move.device_changes ∷ Move.asks_stop ∷ []) (refl, refl)
