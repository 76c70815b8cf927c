-- ===== src/Pipeline/State.antt =====
-- src/pipeline/include/pipeline.h and pipeline.cpp: the configuration, the metric sample and the
-- members of Pipeline::Impl. A callback that is set or not is a Bool. The atomics are plain cells:
-- each operation of the development is one uninterrupted step. The calls made are collected in `trace`.
use reji_studio.Base.{ℕ, Bool, false, Option, none, List, []}
use reji_studio.Source.Desktop.{ExistingDesktopSource}
use reji_studio.Policy.Reinit.{ReinitTriggerPolicy, initial_trigger}
use reji_studio.Policy.Repeat.{IdrCadence, initial_cadence}
use reji_studio.Encode.{EncodeSubsystem, new_encode}
use reji_studio.Audio.Ring.{AudioRing}
use reji_studio.Audio.Bridge.{AudioEncodeBridge, new_bridge}
use reji_studio.Output.{OutputSubsystem, new_output}
use reji_studio.Interop.{GpuInteropSubsystem, new_interop}
use reji_studio.Router.{CommandRouter}
use reji_studio.Metrics.{Metrics, MetricsCollector}
use reji_studio.Diag.{SendDiag, fresh_window}
use reji_studio.Pacer.{FramePacer, new_pacer}
use reji_studio.Trace.{Trace}

pub data TransportProtocol : Type 0 where
  srt rtmp : TransportProtocol

-- The addresses and the key of the transport and the sound device's name are left out.
pub record Config : Type 0 where
  pub width : ℕ
  pub height : ℕ
  pub fps : ℕ
  pub bitrate_kbps : ℕ
  pub min_bitrate_kbps : ℕ
  pub original_bitrate_kbps : ℕ
  pub audio_enabled : Bool
  pub transport_protocol : TransportProtocol

-- The fields that the pipeline fills; the two float rates are left out. `collector` is what
-- apply_collector_metrics copies.
pub record RjMetricSample : Type 0 where
  pub magic_head : ℕ
  pub timestamp_us : ℕ
  pub bitrate_kbps : ℕ
  pub frame_drops : ℕ
  pub collector : Option Metrics

-- The metrics subsystem: the collector, if it was made, and the last frame's start.
pub record MetricsSubsystem : Type 0 where
  pub metrics : Option MetricsCollector
  pub last_frame_ticks : ℕ

-- The kept copy of the last frame.
pub record RepeatTexture : Type 0 where
  pub texture : ℕ
  pub width : ℕ
  pub height : ℕ
  pub format : ℕ
  pub device : ℕ

-- One adapter of the scan.
pub record GpuEntry : Type 0 where
  pub vendor_id : ℕ
  pub dedicated_vram_mb : ℕ

pub record Impl : Type 0 where
  pub cfg : Config
  pub source : Option ExistingDesktopSource
  pub reinit_trigger : ReinitTriggerPolicy
  pub encode_sub : EncodeSubsystem
  pub audio_sub : Option ℕ
  pub audio_bridge : AudioEncodeBridge
  pub output_sub : OutputSubsystem
  pub gpu_sub : GpuInteropSubsystem
  pub command_router : CommandRouter
  pub metrics_sub : MetricsSubsystem
  pub send_diag : SendDiag
  pub send_diag_window_open : Bool
  pub preview_seq : ℕ
  pub repeat_tex : Option RepeatTexture
  pub idr_cadence : IdrCadence
  pub initialized : Bool
  pub streaming : Bool
  pub com_owned : Bool
  pub timer_set : Bool
  pub pacer : FramePacer
  pub bitrate_kbps : ℕ
  pub width : ℕ
  pub height : ℕ
  pub frame_drops : ℕ
  pub last_sample : Option RjMetricSample
  pub fallback_scan : List GpuEntry
  pub preview_cb : Bool
  pub d3d11_frame_cb : Bool
  pub scene_cmd_cb : Bool
  pub shutdown_once : Bool
  pub trace : Trace

abbrev pub new_config : Config
new_config = record {
  width = 1920;
  height = 1080;
  fps = 60;
  bitrate_kbps = 6000;
  min_bitrate_kbps = 1000;
  original_bitrate_kbps = 0;
  audio_enabled = false;
  transport_protocol = TransportProtocol.srt;
}

-- A new Impl; the ring buffers hold what memory holds.
abbrev pub new_impl : AudioRing → CommandRouter → Impl
new_impl ring router = record {
  cfg = new_config;
  source = none;
  reinit_trigger = initial_trigger;
  encode_sub = new_encode;
  audio_sub = none;
  audio_bridge = new_bridge ring;
  output_sub = new_output;
  gpu_sub = new_interop;
  command_router = router;
  metrics_sub = record { metrics = none; last_frame_ticks = 0 };
  send_diag = fresh_window 0;
  send_diag_window_open = false;
  preview_seq = 0;
  repeat_tex = none;
  idr_cadence = initial_cadence;
  initialized = false;
  streaming = false;
  com_owned = false;
  timer_set = false;
  pacer = new_pacer;
  bitrate_kbps = 0;
  width = 0;
  height = 0;
  frame_drops = 0;
  last_sample = none;
  fallback_scan = [];
  preview_cb = false;
  d3d11_frame_cb = false;
  scene_cmd_cb = false;
  shutdown_once = false;
  trace = [];
}
