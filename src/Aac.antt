-- ===== src/Aac.antt =====
-- src/pipeline/audio/aac_encoder.h and aac_encoder.cpp: the encoder of the sound, around a transform of
-- Media Foundation. Media Foundation is foreign: its answers are arguments, and a journal keeps what is
-- started, created, given and released. The values of the samples are left out.
pub mod Codec
pub mod Owned
pub mod Opening
pub mod Life
use reji_studio.Base.{ℕ, Bool, Option, none, List}
use reji_studio.Base.Int.{ℤ}

pub record AacConfig : Type 0 where
  pub sample_rate : ℕ
  pub channels : ℕ
  pub bitrate_bps : ℕ

-- A transform and a sample are known by their pointers. `input` is an offer of samples with their count,
-- time and duration; `delivered` a call of the sink with the length and the time.
pub data MfCall : Type 0 where
  mf_startup : MfCall
  mf_shutdown : MfCall
  created_mft : ℕ → MfCall
  released_mft : ℕ → MfCall
  input : ℕ → ℤ → ℕ → MfCall
  got_sample : ℕ → MfCall
  released_sample : ℕ → MfCall
  delivered : ℕ → ℤ → MfCall

-- AacEncoder; of the sink only whether there is one, and the scratch buffer is left out.
pub record AacEncoder : Type 0 where
  pub mft : Option ℕ
  pub has_sink : Bool
  pub cfg : AacConfig
  pub asc : List ℕ
  pub mf_started : Bool
  pub initialized : Bool
  pub input_stream_id : ℕ
  pub output_stream_id : ℕ
  pub output_provides_samples : Bool
  pub output_sample_size : ℕ

pub record Coded : Type 0 where
  pub state : AacEncoder
  pub ok : Bool
  pub calls : List MfCall
