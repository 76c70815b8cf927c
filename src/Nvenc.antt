-- ===== src/Nvenc.antt =====
-- src/pipeline/encode/encode_nvenc.h and the state of encode_nvenc.cpp: the NVENC encoder. The NVENC
-- interface is foreign: its handles are numbers, its answers are arguments, and a journal keeps the
-- calls that take or give back a handle, carry parameters or deliver a packet. The measured times and
-- the version fields of the structures are left out. Session, Frame and Rates have the operations.
pub mod Session
pub mod Frame
pub mod Rates
pub mod Handles
pub mod Reconfigure
use reji_studio.Base.{
  ℕ, ◌+◌, ◌*◌, ◌%◌, ◌^◌, Bool, true, false, Option, none, some, List, [], ◌∷◌, ◌++◌, ◌==◌,
  if◌then◌else◌,
}
use reji_studio.Base.Int.{ℤ}

pub data Codec : Type 0 where
  h264 : Codec
  hevc : Codec

-- NvencEncoder::Config
pub record Config : Type 0 where
  pub width : ℕ
  pub height : ℕ
  pub fps_num : ℕ
  pub fps_den : ℕ
  pub bitrate_kbps : ℕ
  pub max_bitrate_kbps : ℕ
  pub gop_size : ℕ
  pub codec : Codec

-- The default bitrate, kDefaultBitrateKbps of include/reji_constants.h, is left open.
abbrev pub default_config : ℕ → Config
default_config default_kbps = record {
  width = 1920;
  height = 1080;
  fps_num = 60;
  fps_den = 1;
  bitrate_kbps = default_kbps;
  max_bitrate_kbps = 8000;
  gop_size = 120;
  codec = h264;
}

-- NvencEncoder::Packet: the size stands for the bytes.
pub record Packet : Type 0 where
  pub size : ℕ
  pub is_keyframe : Bool
  pub pts : ℤ

-- The fields of rcParams, and of NV_ENC_CONFIG beside it, that the source sets.
pub record SavedConfig : Type 0 where
  pub average_bitrate : ℕ
  pub max_bitrate : ℕ
  pub vbv_buffer_size : ℕ
  pub vbv_initial_delay : ℕ
  pub frame_interval_p : ℕ
  pub gop_length : ℕ
  pub repeat_sps_pps : Bool

-- The fields of NV_ENC_INITIALIZE_PARAMS that depend on the configuration.
pub record SavedInit : Type 0 where
  pub guid : Codec
  pub encode_width : ℕ
  pub encode_height : ℕ
  pub max_encode_width : ℕ
  pub max_encode_height : ℕ
  pub frame_rate_num : ℕ
  pub frame_rate_den : ℕ

abbrev pub zero_config : SavedConfig
zero_config = record {
  average_bitrate = 0;
  max_bitrate = 0;
  vbv_buffer_size = 0;
  vbv_initial_delay = 0;
  frame_interval_p = 0;
  gop_length = 0;
  repeat_sps_pps = false;
}

abbrev pub zero_init : SavedInit
zero_init = record {
  guid = h264;
  encode_width = 0;
  encode_height = 0;
  max_encode_width = 0;
  max_encode_height = 0;
  frame_rate_num = 0;
  frame_rate_den = 0;
}

-- What the encoder can hold: a mapped input by its number, a locked bitstream by its buffer.
pub data Handle : Type 0 where
  library : ℕ → Handle
  session : ℕ → Handle
  buffer : ℕ → Handle
  resource : ℕ → Handle
  mapped : ℕ → Handle
  locked : Option ℕ → Handle

pub data NvCall : Type 0 where
  took : Handle → NvCall
  gave_back : Handle → NvCall
  initialize : SavedConfig → SavedInit → NvCall
  reconfigure : SavedConfig → SavedInit → NvCall
  encode_picture : ℕ → Option ℕ → Bool → ℤ → ℕ → NvCall
  end_of_stream : NvCall
  hand_over : Packet → NvCall

-- NvencEncoder::Impl; a null pointer is `none`, and on_packet says whether a callback is set.
pub record Impl : Type 0 where
  pub dll : Option ℕ
  pub nv_session : Option ℕ
  pub driver_api_ver : ℕ
  pub reg_tex : Option ℕ
  pub reg_res : Option ℕ
  pub out_bufs : ℕ → Option ℕ
  pub out_idx : ℕ
  pub saved_cfg : SavedConfig
  pub saved_init : SavedInit
  pub config : Config
  pub orig_width : ℕ
  pub orig_height : ℕ
  pub on_packet : Bool
  pub initialized : Bool
  pub frame_idx : ℕ

abbrev pub bitstream_pool_size : ℕ
bitstream_pool_size = 3

-- A new encoder, from NVENCAPI_VERSION and the default bitrate.
abbrev pub new_impl : ℕ → ℕ → Impl
new_impl api_version default_kbps = record {
  dll = none;
  nv_session = none;
  driver_api_ver = api_version;
  reg_tex = none;
  reg_res = none;
  out_bufs = λ _. none;
  out_idx = 0;
  saved_cfg = zero_config;
  saved_init = zero_init;
  config = default_config default_kbps;
  orig_width = 0;
  orig_height = 0;
  on_packet = false;
  initialized = false;
  frame_idx = 0;
}

-- What an operation leaves: the state, its result and the calls it made.
pub record Outcome : Type 0 where
  pub state : Impl
  pub ok : Bool
  pub calls : List NvCall

-- The next stage, unless this one failed.
unfoldable pub and_then : Outcome → (Impl → Outcome) → Outcome
and_then o next =
    let n = next o.state in if o.ok then record n { calls = o.calls ++ n.calls } else o

abbrev pub refused : Impl → Outcome
refused s = record { state = s; ok = false; calls = [] }

-- One second of the bitrate.
unfoldable pub vbv_bits : ℕ → ℕ
vbv_bits bitrate_kbps = bitrate_kbps * 1000 % 2 ^ 32
