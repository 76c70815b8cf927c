-- ===== src/Recovery.antt =====
-- src/pipeline/recovery_coordinator.cpp: what the frame thread does when an encode fails or the
-- capture falls silent. Whether a device is gone, and whether the capture and the encoder start
-- again, are arguments.
pub mod Order
use reji_studio.Base.{
  ℕ, ◌+◌, ◌/◌, ◌≡◌, Bool, true, false, not, Option, none, some, List, [], ◌∷◌, ◌++◌, arith,
  if◌then◌else◌, add_u32,
}
use reji_studio.Source.State.{SourceMetadata}
use reji_studio.Source.Desktop
use reji_studio.Source.Desktop.{ExistingDesktopSource, InitAnswers, Dxgi, metadata}
use reji_studio.Encode
use reji_studio.Encode.{EncodeSubsystem, reinit, destroyed}
use reji_studio.Trace.{Event, EncoderConfig, Reason, Trace}

-- What the recovery meets: `removed` says of a device whether its removed reason differs from S_OK.
pub record LossAnswers : Type 0 where
  pub removed : ℕ → Bool
  pub source : InitAnswers
  pub encoder_init : Bool

-- What the recovery may change, with the calls that it makes and its result.
pub record Recovered : Type 0 where
  pub source : ExistingDesktopSource
  pub encode : EncodeSubsystem
  pub width : ℕ
  pub height : ℕ
  pub trace : Trace
  pub ok : Bool

abbrev pub not_recovered : ExistingDesktopSource → EncodeSubsystem → ℕ → ℕ → Recovered
not_recovered source encode width height = record {
  source = source;
  encode = encode;
  width = width;
  height = height;
  trace = [];
  ok = false;
}

-- bps + bps / 4, in uint32_t
abbrev pub max_bitrate : ℕ → ℕ
max_bitrate bps = add_u32 bps (bps / 4)

unfoldable pub recover_wgc :
    ExistingDesktopSource → EncodeSubsystem → LossAnswers → ℕ → ℕ → Recovered
unfolding Desktop.init Desktop.shutdown metadata
recover_wgc source encode a width height =
    let none_done = not_recovered source encode width height in
    elim (metadata source).device [
      | none ↦ none_done
      | some dev ↦
          let again = Desktop.init (Desktop.shutdown source) a.source in
          if not (a.removed dev) then none_done else record {
            source = again.0;
            encode = encode;
            width = width;
            height = height;
            trace =
                Event.connection_lost Reason.wgc_device_lost
                ∷ Event.source_shutdown
                ∷ Event.source_init
                ∷ [];
            ok = again.1;
          }
    ]

abbrev pub encode_device : Option (Option ℕ) → Option ℕ
encode_device none = none
encode_device (some device) = device

abbrev pub config_after : SourceMetadata → ℕ → ℕ → EncoderConfig
config_after md fps bitrate_kbps = record {
  width = md.width;
  height = md.height;
  fps_num = fps;
  fps_den = 1;
  bitrate_kbps = bitrate_kbps;
  max_bitrate_kbps = max_bitrate bitrate_kbps;
}

-- After the capture is back: the encoder, if there is a device for it.
unfoldable pub restart_encoder :
    ExistingDesktopSource
    → EncodeSubsystem
    → SourceMetadata
    → LossAnswers
    → ℕ
    → ℕ
    → Trace
    → Recovered
unfolding reinit
restart_encoder source encode md a fps bitrate_kbps before = elim md.device [
  | none ↦ record {
    source = source;
    encode = encode;
    width = md.width;
    height = md.height;
    trace = before;
    ok = true;
  }
  | some device ↦
      let cfg = config_after md fps bitrate_kbps in
      let made = reinit encode device cfg a.encoder_init in
      record {
        source = source;
        encode = made.0;
        width = md.width;
        height = md.height;
        trace = before ++ (Event.encoder_init device cfg ∷ []);
        ok = made.1;
      }
]

unfoldable pub recover_dxgi :
    ExistingDesktopSource → Dxgi → EncodeSubsystem → LossAnswers → ℕ → ℕ → ℕ → ℕ → Recovered
unfolding restart_encoder Desktop.init Desktop.shutdown Encode.shutdown metadata
recover_dxgi source dxgi encode a fps bitrate_kbps width height =
    let none_done = not_recovered source encode width height in
    elim (encode_device dxgi.encode_gpu) [
      | none ↦ none_done
      | some dev ↦
          let again = Desktop.init (Desktop.shutdown source) a.source in
          let closed = Encode.shutdown encode in
          let before =
            Event.connection_lost Reason.gpu_device_lost
            ∷ (destroyed encode.encoder ++ (Event.source_shutdown ∷ Event.source_init ∷ [])) in
          if not (a.removed dev)
          then none_done
          else if not again.1
          then record {
            source = again.0;
            encode = closed;
            width = width;
            height = height;
            trace = before;
            ok = false;
          }
          else restart_encoder again.0 closed (metadata again.0) a fps bitrate_kbps before
    ]

unfoldable pub handle_device_lost :
    ExistingDesktopSource → EncodeSubsystem → LossAnswers → ℕ → ℕ → ℕ → ℕ → Recovered
unfolding recover_wgc recover_dxgi
handle_device_lost source encode a fps bitrate_kbps width height = elim source.dxgi [
  | none ↦ recover_wgc source encode a width height
  | some dxgi ↦ recover_dxgi source dxgi encode a fps bitrate_kbps width height
]
