-- ===== src/Pipeline/Setup.antt =====
-- src/pipeline/pipeline.cpp: the initialisation. Each step of it may fail, by its answer; what a
-- failed step leaves is torn down before init returns false.
use reji_studio.Base.{
  ℕ, Bool, true, false, ◌&&◌, not, Option, none, some, is_some, List, [], ◌∷◌, ◌==◌, if◌then◌else◌,
}
use reji_studio.Source.Desktop
use reji_studio.Source.Desktop.{ExistingDesktopSource, InitAnswers, metadata, new_source}
use reji_studio.Source.State.{SourceMetadata}
use reji_studio.Policy.Bitrate.{reduce_floor_for_target}
use reji_studio.Encode
use reji_studio.Output
use reji_studio.Pacer
use reji_studio.Pacer.{FramePacer}
use reji_studio.Recovery.{max_bitrate}
use reji_studio.Metrics.{MetricsCollector}
use reji_studio.Audio.Bridge.{configure}
use reji_studio.Trace.{Event, EncoderConfig}
use reji_studio.Pipeline.State.{Impl, Config, GpuEntry, TransportProtocol}
use reji_studio.Pipeline.Commands.{emit}
use reji_studio.Pipeline.Teardown.{ShutdownAnswers, shutdown}

-- CoInitializeEx: RPC_E_CHANGED_MODE, another failure, success.
pub data ComAnswer : Type 0 where
  changed_mode com_failed com_ok : ComAnswer

pub record SetupAnswers : Type 0 where
  pub collector : MetricsCollector
  pub com_init : ComAnswer
  pub timer_ok : Bool
  pub qpc_freq : Option ℕ
  pub origin_ticks : ℕ
  pub deadline_ticks : ℕ
  pub source : InitAnswers
  pub scan : List GpuEntry
  pub encoder_init : Bool
  pub transport : ℕ
  pub transport_init : Bool
  pub audio : Option ℕ
  pub teardown : ShutdownAnswers

-- The configuration that is kept: the target is the recovery's ceiling, and the floor is not above it.
unfoldable pub accept_config : Impl → Config → Impl
unfolding reduce_floor_for_target
accept_config s cfg =
    emit
      (record s {
        cfg = record cfg {
          original_bitrate_kbps = cfg.bitrate_kbps;
          min_bitrate_kbps = reduce_floor_for_target cfg.min_bitrate_kbps cfg.bitrate_kbps;
        };
        bitrate_kbps = cfg.bitrate_kbps;
      })
      (Event.update_bitrate_state cfg.bitrate_kbps cfg.bitrate_kbps ∷ [])

-- COM, the timer, the pacer; false if COM fails (nothing is torn down) or the pacer does (shutdown).
unfoldable pub begin_clock : Impl → SetupAnswers → Impl
begin_clock s a =
    if a.timer_ok then emit (record s { timer_set = true }) (Event.timer_begin ∷ []) else s

abbrev pub store_size : Impl → SourceMetadata → Impl
store_size s md = record s {
  cfg = record (s.cfg) { width = md.width; height = md.height };
  width = md.width;
  height = md.height;
}

unfoldable pub start_encoder : Impl → Config → Option ℕ → Bool → Impl
unfolding Encode.init
start_encoder s cfg device init_ok = elim device [
  | none ↦ s
  | some dev ↦
      let enc : EncoderConfig = record {
        width = s.cfg.width;
        height = s.cfg.height;
        fps_num = cfg.fps;
        fps_den = 1;
        bitrate_kbps = cfg.bitrate_kbps;
        max_bitrate_kbps = max_bitrate cfg.bitrate_kbps;
      } in
      emit (record s { encode_sub = (Encode.init s.encode_sub dev enc 0 init_ok).0 })
        (Event.encoder_init dev enc ∷ [])
]

abbrev pub is_rtmp : TransportProtocol → Bool
is_rtmp TransportProtocol.srt = false
is_rtmp TransportProtocol.rtmp = true

unfoldable pub start_audio : Impl → Config → Option ℕ → Impl
unfolding configure
start_audio s cfg audio =
    if cfg.audio_enabled && is_rtmp cfg.transport_protocol
    then record s { audio_bridge = configure s.audio_bridge 48000 2 128000 true; audio_sub = audio }
    else s

-- What follows once the source has started.
unfoldable pub finish_init : Impl → Config → ExistingDesktopSource → SetupAnswers → Impl
unfolding metadata start_encoder start_audio Output.init
finish_init s cfg source a =
    let placed =
      store_size
        (record s {
          source = some source;
          fallback_scan = if is_some source.dxgi then s.fallback_scan else a.scan;
          gpu_sub =
              if is_some source.dxgi then record (s.gpu_sub) { has_bridge = true } else s.gpu_sub;
        })
        (metadata source) in
    let encoding = start_encoder placed cfg (metadata source).device a.encoder_init in
    let sending = record encoding {
      output_sub = (Output.init encoding.output_sub a.transport a.transport_init).0;
    } in
    emit (record (start_audio sending cfg a.audio) { initialized = true })
      (Event.start_monitor ∷ Event.router_start ∷ [])

-- The pacer, then the source: what each start answers.
unfoldable pub start_pacer : Impl → Config → SetupAnswers → FramePacer × Bool
unfolding begin_clock Pacer.init
start_pacer s cfg a =
    Pacer.init (begin_clock s a).pacer cfg.fps a.qpc_freq a.origin_ticks a.deadline_ticks

unfoldable pub start_source : SetupAnswers → ExistingDesktopSource × Bool
unfolding Desktop.init
start_source a = Desktop.init (new_source none) a.source

-- The state with the source that has been made, started or not.
unfoldable pub with_source : Impl → Config → SetupAnswers → Impl
unfolding begin_clock start_pacer start_source
with_source s cfg a =
    emit
      (record (begin_clock s a) {
        pacer = (start_pacer s cfg a).0;
        source = some (start_source a).0;
      })
      (Event.source_init ∷ [])

-- What follows once COM is there.
unfoldable pub start_up : Impl → Config → SetupAnswers → Impl × Bool
unfolding begin_clock start_pacer start_source with_source finish_init shutdown
start_up s cfg a =
    if not (start_pacer s cfg a).1
    then ((shutdown (begin_clock s a) a.teardown).0, false)
    else if not (start_source a).1
    then ((shutdown (with_source s cfg a) a.teardown).0, false)
    else (finish_init (with_source s cfg a) cfg (start_source a).0 a, true)

-- What follows the answer of CoInitializeEx; a failure there is returned at once.
unfoldable pub with_com : Impl → Config → SetupAnswers → ComAnswer → Impl × Bool
unfolding start_up
with_com s cfg a ComAnswer.changed_mode = start_up (record s { com_owned = false }) cfg a
with_com s cfg a ComAnswer.com_failed = (s, false)
with_com s cfg a ComAnswer.com_ok =
    start_up (emit (record s { com_owned = true }) (Event.com_init ∷ [])) cfg a

unfoldable pub init : Impl → Config → SetupAnswers → Impl × Bool
unfolding accept_config with_com
init s cfg a =
    if s.initialized
    then (s, true)
    else if cfg.fps == 0
    then (s, false)
    else with_com
        (accept_config
          (record s { metrics_sub = record (s.metrics_sub) { metrics = some a.collector } }) cfg)
        cfg a a.com_init
