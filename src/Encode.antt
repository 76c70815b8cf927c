-- ===== src/Encode.antt =====
-- src/pipeline/include/encode_subsystem.h and encode_subsystem.cpp: the owner of the NVENC encoder.
-- The encoder itself is foreign: whether its init or a call succeeds is an argument. A device, a
-- texture and a callback are known by numbers.
use reji_studio.Base.{ℕ, Bool, true, false, Option, none, some, [], ◌∷◌, if◌then◌else◌}
use reji_studio.Base.Int.{ℤ}
use reji_studio.Trace.{Event, EncoderConfig, Trace}

pub record Encoder : Type 0 where
  pub device : ℕ
  pub config : EncoderConfig
  pub callback : Option ℕ

pub record EncodeSubsystem : Type 0 where
  pub encoder : Option Encoder
  pub packet_cb : Option ℕ
  pub force_idr : Bool

abbrev pub new_encode : EncodeSubsystem
new_encode = record { encoder = none; packet_cb = none; force_idr = false }

-- reset() of the owner: the destructor tears the encoder down.
abbrev pub destroyed : Option Encoder → Trace
destroyed none = []
destroyed (some e) = Event.encoder_destroy ∷ []

unfoldable pub init : EncodeSubsystem → ℕ → EncoderConfig → ℕ → Bool → EncodeSubsystem × Bool
init e device cfg cb init_ok =
    let made : Encoder = record { device = device; config = cfg; callback = some cb } in
    (record e { packet_cb = some cb; encoder = if init_ok then some made else none }, init_ok)

unfoldable pub reinit : EncodeSubsystem → ℕ → EncoderConfig → Bool → EncodeSubsystem × Bool
reinit e device cfg init_ok =
    let made : Encoder = record { device = device; config = cfg; callback = e.packet_cb } in
    (record e { encoder = if init_ok then some made else none }, init_ok)

unfoldable pub request_idr : EncodeSubsystem → EncodeSubsystem
request_idr e = record e { force_idr = true }

-- The subsystem after the call, and the call on the encoder, if there is one: its result is the
-- result of `encode_frame`, and without an encoder the result is true.
unfoldable pub encode_frame : EncodeSubsystem → ℕ → ℤ → EncodeSubsystem × Option Event
encode_frame e tex pts_us = elim e.encoder [
  | none ↦ (e, none)
  | some enc ↦ (record e { force_idr = false }, some (Event.encoder_encode tex pts_us e.force_idr))
]

-- The reconfiguration calls: what reaches the encoder, and the result.
abbrev pub guarded : EncodeSubsystem → Event → Bool → Trace × Bool
guarded e call answer = elim e.encoder [ none ↦ ([], false) | some enc ↦ (call ∷ [], answer) ]

unfoldable pub set_bitrate : EncodeSubsystem → ℕ → Bool → Trace × Bool
set_bitrate e kbps answer = guarded e (Event.encoder_set_bitrate kbps) answer

-- The scale is in thousandths.
unfoldable pub set_resolution : EncodeSubsystem → ℤ → Bool → Trace × Bool
set_resolution e scale answer = guarded e (Event.encoder_set_resolution scale) answer

unfoldable pub set_fps_limit : EncodeSubsystem → ℕ → Bool → Trace × Bool
set_fps_limit e fps answer = guarded e (Event.encoder_set_fps_limit fps) answer

unfoldable pub shutdown : EncodeSubsystem → EncodeSubsystem
shutdown e = record e { encoder = none }
