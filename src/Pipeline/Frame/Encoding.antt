-- ===== src/Pipeline/Frame/Encoding.antt =====
-- src/pipeline/pipeline.cpp, the turn of the frame thread up to the encoder: the copy that a repeat
-- needs, the encoder's call and its recovery, the preview.
use reji_studio.Base.{
  ℕ, ◌%◌, Bool, true, false, ◌&&◌, not, Option, none, some, is_some, List, [], ◌∷◌, ◌==◌,
  if◌then◌else◌, add_u32,
}
use reji_studio.Base.Int.{ℤ}
use reji_studio.Source.State.{CapturedFrame}
use reji_studio.Source.Desktop.{ExistingDesktopSource}
use reji_studio.Policy.Drop.{FrameOutcome, counts_as_frame_drop}
use reji_studio.Policy.Repeat.{should_force_idr}
use reji_studio.Encode.{EncodeSubsystem, encode_frame, request_idr}
use reji_studio.Router.{Inbox}
use reji_studio.Recovery.{LossAnswers, handle_device_lost}
use reji_studio.Interop.{FrameImages, get_frame_images, cache_last_images}
use reji_studio.Diag.{Sample}
use reji_studio.Audio.Bridge.{AacEncoder}
use reji_studio.Trace.{Event}
use reji_studio.Pipeline.State.{Impl, RepeatTexture}
use reji_studio.Pipeline.Commands.{emit}
use reji_studio.Pipeline.Packet.{Packet, on_packets, note, ticks_us}

-- copy_for_repeat: the source texture's description and device, and what D3D11 answers.
pub record CopyAnswers : Type 0 where
  pub width : ℕ
  pub height : ℕ
  pub format : ℕ
  pub device : Option ℕ
  pub created : Option ℕ
  pub has_context : Bool

unfoldable fits_copy : RepeatTexture → CopyAnswers → ℕ → Bool
fits_copy t a dev =
    t.width == a.width && t.height == a.height && t.format == a.format && t.device == dev

-- What is kept of the old copy.
abbrev kept_copy : Option RepeatTexture → CopyAnswers → ℕ → Option RepeatTexture
kept_copy none a dev = none
kept_copy (some t) a dev = if fits_copy t a dev then some t else none

abbrev made_copy : CopyAnswers → ℕ → Option RepeatTexture
made_copy a dev = elim a.created [
  | none ↦ none
  | some texture ↦ some (record {
    texture = texture;
    width = a.width;
    height = a.height;
    format = a.format;
    device = dev;
  })
]

abbrev or_made : Option RepeatTexture → Option RepeatTexture → Option RepeatTexture
or_made none made = made
or_made (some t) made = some t

-- The kept copy afterwards, and the texture returned.
unfoldable pub copy_for_repeat :
    Option RepeatTexture → CopyAnswers → Option RepeatTexture × Option ℕ
unfolding fits_copy
copy_for_repeat old a = elim a.device [
  | none ↦ (old, none)
  | some dev ↦ elim (or_made (kept_copy old a dev) (made_copy a dev)) [
    | none ↦ (none, none)
    | some t ↦ (some t, if a.has_context then some t.texture else none)
  ]
]

-- What the encoder does in one call: the packets that it hands over before it returns.
pub record EncodeAnswers : Type 0 where
  pub packets : List Packet
  pub ok : Bool
  pub encode_us : ℕ
  pub lock_us : ℕ
  pub cb_us : ℕ

-- How long each measured section takes, in ticks.
pub record Durations : Type 0 where
  pub capture : ℕ
  pub copy : ℕ
  pub encode : ℕ
  pub interop : ℕ
  pub preview : ℕ
  pub total : ℕ
  pub pace : ℕ

pub record FrameInputs : Type 0 where
  pub frame_start : ℕ
  pub inbox : Inbox
  pub captured : CapturedFrame
  pub capture_clock : ℕ
  pub copy : CopyAnswers
  pub encode : EncodeAnswers
  pub aac : AacEncoder
  pub loss : LossAnswers
  pub shared_texture : Bool
  pub frame_images : Option FrameImages
  pub wgc_emitted : Bool
  pub durations : Durations
  pub diag_clock : ℕ
  pub pace_clock : ℕ
  pub pace_readings : List ℕ

unfoldable pub maybe_force_idr : Impl → ℤ → Impl
unfolding should_force_idr request_idr
maybe_force_idr s pts_us =
    let r = should_force_idr s.idr_cadence pts_us in
    let asked = record s { idr_cadence = r.0 } in
    if r.1
    then note (record asked { encode_sub = request_idr s.encode_sub }) Sample.idr_fallback
    else asked

-- The packets come only from an encoder that there is; without one the call succeeds.
unfoldable pub receive : Impl → FrameInputs → EncodeSubsystem → Option Event → Impl × Bool
receive s i e none = (record s { encode_sub = e }, true)
receive s i e (some call) = (
  on_packets i.aac (emit (record s { encode_sub = e }) (call ∷ [])) i.encode.packets,
  i.encode.ok,
)

unfoldable pub encode_texture : Impl → FrameInputs → ℕ → ℤ → Impl × Bool
unfolding encode_frame receive
encode_texture s i tex pts_us = let r = encode_frame s.encode_sub tex pts_us in receive s i r.0 r.1

unfoldable pub recover : Impl → ExistingDesktopSource → LossAnswers → Impl
unfolding handle_device_lost
recover s source a =
    let r = handle_device_lost source s.encode_sub a s.cfg.fps s.bitrate_kbps s.width s.height in
    emit
      (record s {
        source = some r.source;
        encode_sub = r.encode;
        width = r.width;
        height = r.height;
      })
      r.trace

abbrev pub count_drop : Impl → FrameOutcome → Impl
count_drop s o =
    if counts_as_frame_drop o then record s { frame_drops = add_u32 s.frame_drops 1 } else s

abbrev split : Impl → EncodeAnswers → Impl
split s e =
    if is_some s.encode_sub.encoder
    then note s (Sample.enc_split e.encode_us e.lock_us e.cb_us)
    else s

-- What follows the encode call: the statistics, and after a failure the drop and the recovery.
unfoldable pub conclude :
    Impl → ExistingDesktopSource → FrameInputs → Impl × Bool → Bool → Impl × Bool
unfolding recover counts_as_frame_drop ticks_us
conclude s source i r repeated =
    let timed = split (note r.0 (Sample.encode (ticks_us s.pacer i.durations.encode))) i.encode in
    let noted = if repeated then note timed Sample.repeat else timed in
    if r.1
    then (noted, false)
    else (recover (count_drop noted FrameOutcome.encode_failed) source i.loss, true)

-- The encode of a new frame or of the kept copy, up to the recovery after a failure; `repeated`
-- says which of the two.
unfoldable pub encode_and_recover :
    Impl → ExistingDesktopSource → FrameInputs → ℕ → ℤ → Bool → Impl × Bool
unfolding maybe_force_idr encode_texture conclude
encode_and_recover s source i tex pts_us repeated =
    conclude s source i (encode_texture (maybe_force_idr s pts_us) i tex pts_us) repeated

-- The callback with the live texture and the cache of the shared images.
abbrev interop_images : Impl → FrameInputs → Impl
interop_images s i =
    if s.gpu_sub.has_bridge
      && is_some (elim s.source [ none ↦ none | some src ↦ src.dxgi ])
      && i.shared_texture
    then elim (get_frame_images s.gpu_sub i.frame_images) [
      | none ↦ s
      | some images ↦ record s { gpu_sub = cache_last_images s.gpu_sub images }
    ]
    else s

unfoldable pub show_interop : Impl → FrameInputs → Impl
unfolding get_frame_images cache_last_images ticks_us
show_interop s i =
    if not s.d3d11_frame_cb
    then s
    else note (interop_images s i) (Sample.interop (ticks_us s.pacer i.durations.interop))

abbrev is_wgc : Option ExistingDesktopSource → Bool
is_wgc none = false
is_wgc (some src) = is_some src.capture && not (is_some src.dxgi)

-- The preview: the DXGI map only reads, the WGC emit runs on every second frame.
unfoldable pub show_preview : Impl → FrameInputs → Impl
unfolding ticks_us
show_preview s i =
    let turned = record s { preview_seq = add_u32 s.preview_seq 1 } in
    let emitted =
      if s.preview_seq % 2 == 0
      then (if i.wgc_emitted then turned else note turned Sample.preview_miss)
      else turned in
    if not s.preview_cb
    then s
    else note (if is_wgc s.source then emitted else s)
        (Sample.preview (ticks_us s.pacer i.durations.preview))
