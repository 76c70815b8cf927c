-- ===== src/Pipeline/Drops/Failures.antt =====
-- The failed sends and encodes of pipeline.cpp, from a packet to a new frame.
use reji_studio.Base.{
  ℕ, ◌+◌, ◌^◌, ◌%◌, ◌≡◌, refl, subst, ◌∙◌, Bool, true, false, ◌&&◌, ◌||◌, not, Option, none, some,
  is_some, List, [], ◌∷◌, ◌++◌, arith, if◌then◌else◌, add_u32,
}
use reji_studio.Base.Int.{ℤ}
use reji_studio.Source.Desktop.{ExistingDesktopSource}
use reji_studio.Policy.Drop.{counts_as_frame_drop}
use reji_studio.Policy.Repeat.{should_repeat_frame, should_force_idr}
use reji_studio.Encode.{EncodeSubsystem, encode_frame, request_idr}
use reji_studio.Output.{OutputSubsystem, send}
use reji_studio.Audio.Bridge.{AacEncoder}
use reji_studio.Trace.{Event}
use reji_studio.Pipeline.State.{Impl, RepeatTexture}
use reji_studio.Pipeline.Packet.{
  Packet, on_packet, on_packets, observe_keyframe, send_packet, drain_audio,
}
use reji_studio.Pipeline.Frame.{
  keep_copy, encode_new, new_frame, repeat_copy, repeat_last, null_frame,
}
use reji_studio.Pipeline.Frame.Encoding.{
  FrameInputs, maybe_force_idr, receive, encode_texture, conclude, encode_and_recover, recover,
  show_interop, show_preview,
}

-- The packet was sent, but the transport refused it or the call faulted.
unfoldable pub failed_send : OutputSubsystem → Packet → Bool
failed_send o p = not (send o p.wire p.pts).1

unfoldable pub failed_sends : OutputSubsystem → List Packet → ℕ
failed_sends o [] = 0
failed_sends o (p ∷ ps) = (if failed_send o p then 1 else 0) + failed_sends o ps

on_packet-drops :
    (aac : AacEncoder) (s : Impl) (p : Packet)
    → ((on_packet aac s p).frame_drops ≡ (
        if s.streaming && failed_send s.output_sub p
        then add_u32 s.frame_drops 1
        else s.frame_drops))
      × ((on_packet aac s p).output_sub ≡ s.output_sub)
      × ((on_packet aac s p).streaming ≡ s.streaming)
unfolding on_packet observe_keyframe send_packet drain_audio failed_send
on_packet-drops aac s p = ground arith

-- A run of packets adds one drop for each failed send while the stream is on, and none while it is
-- off.
on_packets-drops :
    (aac : AacEncoder) (s : Impl) (ps : List Packet)
    → s.frame_drops ≡ s.frame_drops % 2 ^ 32
    → (on_packets aac s ps).frame_drops
      ≡ (s.frame_drops + (if s.streaming then failed_sends s.output_sub ps else 0)) % 2 ^ 32
unfolding on_packets failed_sends
on_packets-drops aac s [] h = ground arith
on_packets-drops aac s (p ∷ ps) h =
    let one = on_packet-drops aac s p in
    ground (arith, one, on_packets-drops aac (on_packet aac s p) ps)

-- The drops that one encode call brings.
unfoldable pub encode_failures : Impl → FrameInputs → ℕ
encode_failures s i =
    if is_some s.encode_sub.encoder
    then (if s.streaming then failed_sends s.output_sub i.encode.packets else 0)
      + (if i.encode.ok then 0 else 1)
    else 0

record SameAir (s t : Impl) : Type 0 where
  pub drops : t.frame_drops ≡ s.frame_drops
  output : t.output_sub ≡ s.output_sub
  streaming : t.streaming ≡ s.streaming
  encoder : t.encode_sub.encoder ≡ s.encode_sub.encoder

maybe_force_idr-SameAir : (s : Impl) (pts : ℤ) → SameAir s (maybe_force_idr s pts)
unfolding maybe_force_idr should_force_idr request_idr
maybe_force_idr-SameAir s pts = record {
  drops = ground arith;
  output = ground arith;
  streaming = ground arith;
  encoder = ground arith;
}

receive-drops :
    (s : Impl) (i : FrameInputs) (e : EncodeSubsystem) (call : Option Event)
    → s.frame_drops ≡ s.frame_drops % 2 ^ 32
    → ((receive s i e call).0.frame_drops
        ≡ (s.frame_drops
            + (if is_some call && s.streaming
                then failed_sends s.output_sub i.encode.packets
                else 0))
          % 2 ^ 32)
      × ((receive s i e call).1 ≡ (not (is_some call) || i.encode.ok))
unfolding receive
receive-drops s i e none h = (ground (arith, h), refl)
receive-drops s i e (some call) h = (
  on_packets-drops i.aac (record s { encode_sub = e; trace = s.trace ++ (call ∷ []) })
      i.encode.packets h,
  refl,
)

called :
    (e : EncodeSubsystem) (tex : ℕ) (pts : ℤ)
    → is_some (encode_frame e tex pts).1 ≡ is_some e.encoder
unfolding encode_frame
called e tex pts = ground arith

encode_texture-drops :
    (s : Impl) (i : FrameInputs) (tex : ℕ) (pts : ℤ)
    → s.frame_drops ≡ s.frame_drops % 2 ^ 32
    → ((encode_texture s i tex pts).0.frame_drops
        ≡ (s.frame_drops
            + (if is_some s.encode_sub.encoder && s.streaming
                then failed_sends s.output_sub i.encode.packets
                else 0))
          % 2 ^ 32)
      × ((encode_texture s i tex pts).1 ≡ (not (is_some s.encode_sub.encoder) || i.encode.ok))
unfolding encode_texture
encode_texture-drops s i tex pts h =
    subst
      (λ b.
        ((encode_texture s i tex pts).0.frame_drops
          ≡ (s.frame_drops
              + (if b && s.streaming then failed_sends s.output_sub i.encode.packets else 0))
            % 2 ^ 32)
        × ((encode_texture s i tex pts).1 ≡ (not b || i.encode.ok)))
      (called s.encode_sub tex pts) (receive-drops s i _ _ h)

recover-drops :
    (s : Impl) (source : ExistingDesktopSource) (i : FrameInputs)
    → (recover s source i.loss).frame_drops ≡ s.frame_drops
unfolding recover
recover-drops s source i = refl

recorded-drops :
    (s : Impl) (source : ExistingDesktopSource) (i : FrameInputs) (r : Impl × Bool)
    (repeated : Bool)
    → (conclude s source i r repeated).0.frame_drops
      ≡ (if r.1 then r.0.frame_drops else add_u32 r.0.frame_drops 1)
unfolding conclude counts_as_frame_drop recover
recorded-drops s source i r repeated = ground arith

encode_and_recover-drops :
    (s : Impl) (source : ExistingDesktopSource) (i : FrameInputs) (tex : ℕ) (pts : ℤ)
    (repeated : Bool)
    → s.frame_drops ≡ s.frame_drops % 2 ^ 32
    → (encode_and_recover s source i tex pts repeated).0.frame_drops
      ≡ (s.frame_drops + encode_failures s i) % 2 ^ 32
unfolding encode_and_recover encode_failures
encode_and_recover-drops s source i tex pts repeated h =
    let m = maybe_force_idr-SameAir s pts in
    let e = encode_texture-drops (maybe_force_idr s pts) i tex pts (ground (arith, m.drops)) in
    recorded-drops s source i (encode_texture (maybe_force_idr s pts) i tex pts) repeated
    ∙ rw (e.0, e.1, m.drops, m.output, m.streaming, m.encoder) (ground arith)

show_interop-drops : (s : Impl) (i : FrameInputs) → (show_interop s i).frame_drops ≡ s.frame_drops
unfolding show_interop
show_interop-drops s i = ground arith

show_preview-drops : (s : Impl) (i : FrameInputs) → (show_preview s i).frame_drops ≡ s.frame_drops
unfolding show_preview
show_preview-drops s i = ground arith

encode_new-drops :
    (s : Impl) (source : ExistingDesktopSource) (i : FrameInputs) (tex : ℕ)
    → s.frame_drops ≡ s.frame_drops % 2 ^ 32
    → (encode_new s source i tex).frame_drops ≡ (s.frame_drops + encode_failures s i) % 2 ^ 32
unfolding encode_new keep_copy encode_failures
encode_new-drops s source i tex h = encode_and_recover-drops (keep_copy s i) source i _ _ false h

pub new_frame-drops :
    (s : Impl) (source : ExistingDesktopSource) (i : FrameInputs) (tex : ℕ)
    → s.frame_drops ≡ s.frame_drops % 2 ^ 32
    → (new_frame s source i tex).frame_drops ≡ (s.frame_drops + encode_failures s i) % 2 ^ 32
unfolding new_frame
new_frame-drops s source i tex h =
    show_preview-drops (show_interop (encode_new s source i tex) i) i
    ∙ show_interop-drops (encode_new s source i tex) i
    ∙ encode_new-drops s source i tex h

repeat_copy-drops :
    (s : Impl) (source : ExistingDesktopSource) (i : FrameInputs) (t : Option RepeatTexture)
    → s.frame_drops ≡ s.frame_drops % 2 ^ 32
    → (repeat_copy s source i t).0.frame_drops
      ≡ (s.frame_drops + (if is_some t then encode_failures s i else 0)) % 2 ^ 32
unfolding repeat_copy should_repeat_frame
repeat_copy-drops s source i none h = ground (arith, h)
repeat_copy-drops s source i (some t) h = encode_and_recover-drops s source i _ _ true h

-- The null tick encodes only if there is a copy.
repeat_last-drops :
    (s : Impl) (source : ExistingDesktopSource) (i : FrameInputs)
    → s.frame_drops ≡ s.frame_drops % 2 ^ 32
    → (repeat_last s source i).0.frame_drops
      ≡ (s.frame_drops + (if is_some s.repeat_tex then encode_failures s i else 0)) % 2 ^ 32
unfolding repeat_last
repeat_last-drops s source i h = repeat_copy-drops s source i s.repeat_tex h

pub null_frame-drops :
    (s : Impl) (source : ExistingDesktopSource) (i : FrameInputs) (edge : Bool)
    → s.frame_drops ≡ s.frame_drops % 2 ^ 32
    → (null_frame s source i edge).frame_drops
      ≡ (s.frame_drops + (if is_some s.repeat_tex then encode_failures s i else 0)) % 2 ^ 32
unfolding null_frame counts_as_frame_drop recover
null_frame-drops s source i edge h = ground (arith, repeat_last-drops s source i h)

-- The drops of one turn: a texture is encoded always, an empty tick only if there is a copy.
unfoldable pub turn_failures : Impl → FrameInputs → ℕ
turn_failures s i =
    if is_some i.captured.handle || is_some s.repeat_tex then encode_failures s i else 0
