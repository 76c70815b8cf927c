-- ===== src/Trace.antt =====
-- The calls that the pipeline makes on what it does not own: the encoder, the transport, the sound
-- device, the Rust side, the operating system. A run's calls are listed oldest first.
use reji_studio.Base.{ℕ, Bool, List}
use reji_studio.Base.Int.{ℤ}

pub record EncoderConfig : Type 0 where
  pub width : ℕ
  pub height : ℕ
  pub fps_num : ℕ
  pub fps_den : ℕ
  pub bitrate_kbps : ℕ
  pub max_bitrate_kbps : ℕ

pub data Reason : Type 0 where
  wgc_device_lost gpu_device_lost : Reason

pub data Event : Type 0 where
  encoder_init : ℕ → EncoderConfig → Event
  encoder_encode : ℕ → ℤ → Bool → Event
  encoder_set_bitrate : ℕ → Event
  encoder_set_resolution : ℤ → Event
  encoder_set_fps_limit : ℕ → Event
  encoder_flush encoder_shutdown encoder_destroy : Event
  source_init source_shutdown : Event
  connection_lost : Reason → Event
  update_bitrate_state : ℕ → ℕ → Event
  wire_video : ℤ → Event
  wire_audio : ℤ → Event
  wire_audio_config : Event
  transport_shutdown transport_destroy : Event
  audio_start audio_stop audio_shutdown audio_destroy : Event
  scene_command : ℕ → ℕ → Event
  metrics_push : Event
  start_monitor router_start router_stop metrics_stop profiler_finalize gpu_shutdown : Event
  bridge_shutdown com_init com_uninit timer_begin timer_end : Event

abbrev pub Trace : Type 0
Trace = List Event
