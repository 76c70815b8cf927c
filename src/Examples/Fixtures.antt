-- ===== src/Examples/Fixtures.antt =====
-- Concrete states and answers for the examples.
use reji_studio.Base.{◌==◌, if◌then◌else◌, true, false, none, some, [], ◌∷◌}
use reji_studio.Base.Int.{pos}
use reji_studio.Source.State.{HandleType}
use reji_studio.Source.Streak.{reset_streak}
use reji_studio.Source.Desktop.{Capture, Dxgi, InitAnswers, ExistingDesktopSource}
use reji_studio.Encode.{EncodeSubsystem}
use reji_studio.Output.{Answer, TransportAnswers}
use reji_studio.Audio.Ring.{Slot, AudioRing}
use reji_studio.Audio.Bridge.{AacEncoder}
use reji_studio.Router.{ActionType, CommandRouter, CommandType, Inbox}
use reji_studio.Recovery.{LossAnswers}
use reji_studio.Metrics.{new_collector}
use reji_studio.Trace.{EncoderConfig}
use reji_studio.Pipeline.State.{Impl, Config, TransportProtocol, new_impl}
use reji_studio.Pipeline.Packet.{Packet}
use reji_studio.Pipeline.Frame.Encoding.{FrameInputs}
use reji_studio.Pipeline.Teardown.{ShutdownAnswers, TeardownAnswer}
use reji_studio.Pipeline.Setup.{SetupAnswers, ComAnswer}

abbrev pub empty_slot : Slot
empty_slot = record {
  pts_us = pos 0;
  frames = 0;
  channels = 0;
  sample_rate = 0;
  count = 0;
  samples = [];
}

abbrev pub new_ring : AudioRing
new_ring = record {
  slots = λ _. empty_slot;
  head = 0;
  tail = 0;
  dropped_full = 0;
  rejected_invalid = 0;
}

-- One chunk of the configured format waits, and behind it one of another rate.
abbrev pub mixed_ring : AudioRing
mixed_ring = record new_ring {
  slots = λ n. record empty_slot {
    frames = 1;
    channels = 2;
    sample_rate = if n == 0 then 48000 else 44100;
    count = 2;
    samples = 5 ∷ 6 ∷ [];
  };
  tail = 2;
}

abbrev pub new_router : CommandRouter
new_router = record {
  ws_port_logged = false;
  frame_cmd_buf = λ _. record { action_type = ActionType.cap_fps; param1 = pos 30 };
  frame_cmd_head = 0;
  frame_cmd_tail = 0;
}

abbrev pub fresh : Impl
fresh = new_impl new_ring new_router

abbrev pub config : Config
config = record {
  width = 0;
  height = 0;
  fps = 60;
  bitrate_kbps = 800;
  min_bitrate_kbps = 1000;
  original_bitrate_kbps = 0;
  audio_enabled = true;
  transport_protocol = TransportProtocol.rtmp;
}

abbrev pub wgc_capture : Capture
wgc_capture = record { width = 1280; height = 720; d3d_device = some 7; dxgi = none }

abbrev pub dxgi_pipeline : Dxgi
dxgi_pipeline = record { surface_format = 87; encode_gpu = some (some 9) }

abbrev pub dxgi_capture : Capture
dxgi_capture = record {
  width = 1920;
  height = 1080;
  d3d_device = some 9;
  dxgi = some dxgi_pipeline;
}

abbrev pub source_of : Capture → ExistingDesktopSource
source_of c = record {
  injected = none;
  capture = some c;
  dxgi = c.dxgi;
  format = 87;
  qpc_freq = 10_000_000;
  streak = reset_streak;
}

abbrev pub starts_with : Capture → InitAnswers
starts_with c = record { created = some c; init_ok = true; frequency = some 10_000_000 }

abbrev pub quiet_aac : AacEncoder
quiet_aac = record {
  init_ok = true;
  has_asc = true;
  frames = λ _ _. pos 20_000 ∷ [];
  flushed = λ _. [];
}

abbrev pub clean_shutdown : ShutdownAnswers
clean_shutdown = record { teardown = TeardownAnswer.complete; uninit_ok = true; aac = quiet_aac }

abbrev pub setup : SetupAnswers
setup = record {
  collector = new_collector 0;
  com_init = ComAnswer.com_ok;
  timer_ok = true;
  qpc_freq = some 10_000_000;
  origin_ticks = 100;
  deadline_ticks = 200;
  source = starts_with wgc_capture;
  scan = [];
  encoder_init = true;
  transport = 3;
  transport_init = true;
  audio = some 4;
  teardown = clean_shutdown;
}

-- The capture refuses to start.
abbrev pub broken_setup : SetupAnswers
broken_setup = record setup {
  source = record { created = some wgc_capture; init_ok = false; frequency = none };
}

abbrev pub encoder_config : EncoderConfig
encoder_config = record {
  width = 1920;
  height = 1080;
  fps_num = 60;
  fps_den = 1;
  bitrate_kbps = 6000;
  max_bitrate_kbps = 7500;
}

abbrev pub running_encoder : EncodeSubsystem
running_encoder = record {
  encoder = some (record { device = 9; config = encoder_config; callback = some 1 });
  packet_cb = some 1;
  force_idr = false;
}

-- A session on air at 5000 of 6000 kbps, with a floor of 1000.
abbrev pub session : Impl
session = record fresh {
  cfg = record config { bitrate_kbps = 6000; original_bitrate_kbps = 6000 };
  source = some (source_of dxgi_capture);
  encode_sub = running_encoder;
  output_sub = record { transport = some 3; transport_atomic = some 3 };
  initialized = true;
  streaming = true;
  bitrate_kbps = 5000;
  width = 1920;
  height = 1080;
}

abbrev pub off_air : Impl
off_air = record session {
  output_sub = record { transport = some 3; transport_atomic = none };
  streaming = false;
}

abbrev pub refusing : TransportAnswers
refusing = record {
  is_connected = true;
  send = Answer.returned false;
  set_audio_config = true;
  send_audio = Answer.returned true;
}

abbrev pub taking : TransportAnswers
taking = record refusing { send = Answer.returned true }

abbrev pub key_packet : Packet
key_packet = record {
  pts = pos 16_000;
  is_keyframe = true;
  wire = refusing;
  wire_at_start = refusing;
  send_ticks = 10;
  drain_ticks = 10;
}

abbrev pub removed_device : LossAnswers
removed_device = record {
  removed = λ _. true;
  source = starts_with dxgi_capture;
  encoder_init = true;
}

abbrev pub no_commands : Inbox
no_commands = record {
  ws_port = 0;
  drained = pos 0;
  commands = λ _. record { cmd_type = CommandType.preview_fps; param_u32 = 0 };
  ws_commands = [];
}

abbrev pub bitrate_command : Inbox
bitrate_command = record no_commands {
  drained = pos 1;
  commands = λ _. record { cmd_type = CommandType.bitrate_set; param_u32 = 3000 };
}

-- A frame arrives, its packet is refused by the transport, and the encode fails.
abbrev pub bad_turn : FrameInputs
bad_turn = record {
  frame_start = 1_000_000;
  inbox = no_commands;
  captured = record {
    type = HandleType.d3d11;
    handle = some 11;
    width = 1920;
    height = 1080;
    timestamp_us = 5;
  };
  capture_clock = 1_000_100;
  copy = record {
    width = 1920;
    height = 1080;
    format = 87;
    device = some 9;
    created = some 12;
    has_context = true;
  };
  encode = record { packets = key_packet ∷ []; ok = false; encode_us = 1; lock_us = 2; cb_us = 3 };
  aac = quiet_aac;
  loss = removed_device;
  shared_texture = false;
  frame_images = none;
  wgc_emitted = false;
  durations = record {
    capture = 1;
    copy = 1;
    encode = 1;
    interop = 1;
    preview = 1;
    total = 1;
    pace = 1;
  };
  diag_clock = 1_000_200;
  pace_clock = 1_000_300;
  pace_readings = [];
}
