-- ===== src/Audio/Bridge/Drain.antt =====
-- src/pipeline/audio/audio_encode_bridge.cpp: what one drain leaves behind.
pub mod Chunks
use reji_studio.Base.{
  ℕ, zero, suc, ◌≤◌, ◌≡◌, refl, sym, ap, ◌∙◌, subst, inl, inr, Bool, true, ◌&&◌, ◌||◌, not, Option,
  none, some, List, [], ◌∷◌, ◌++◌, append_assoc, append-nil, arith, if◌then◌else◌, length,
  Bool-cases, Option-cases,
}
use reji_studio.Base.Int.{ℤ}
use reji_studio.Audio.Ring.{AudioRing, Delivered, consume}
use reji_studio.Audio.Ring.Refine.{
  IsValid, contents, queue_pop, consume_refines, consume-IsValid, length-contents,
}
use reji_studio.Audio.Format.{format_matches, asc_retry_needed}
use reji_studio.Audio.Bridge.{
  AudioEncodeBridge, AacEncoder, Wire, on_aac, on_frames, take_chunk, consume_all, matches,
  drift_valve, drain, send_asc_if_ready, ensure_encoder,
}
use reji_studio.Trace.{Trace}
use reji_studio.Output.{OutputSubsystem, TransportAnswers, set_audio_config}
use reji_studio.Audio.Bridge.Drain.Chunks.{
  matching, all_match, SameBut, on_frames-SameBut, consume_all-Took,
}

-- The encoder runs, or starts now.
unfoldable pub starts : AudioEncodeBridge → AacEncoder → Bool
starts b e = b.encoder_ready || not b.encoder_failed && e.init_ok

-- The answer to the configuration, if there is one to send.
unfoldable pub asc_answer : AudioEncodeBridge → AacEncoder → Wire → TransportAnswers → Bool
asc_answer b e w a = b.has_out && e.has_asc && (set_audio_config w.output a).1

-- The bridge that the loop of a drain starts from.
unfoldable prepared : AudioEncodeBridge → AacEncoder → Wire → AudioEncodeBridge
unfolding ensure_encoder send_asc_if_ready
prepared b e w =
    let started = (ensure_encoder b e w).0 in
    if asc_retry_needed started.encoder_ready started.asc_sent
    then (send_asc_if_ready started e w.output w.later).0
    else started

record Prepared (b : AudioEncodeBridge) (e : AacEncoder) (w : Wire) (c : AudioEncodeBridge)
    : Type 0 where
  ring : c.ring ≡ b.ring
  fed : c.fed ≡ (if b.encoder_ready then b.fed else [])
  rate : c.sample_rate ≡ b.sample_rate
  channels : c.channels ≡ b.channels
  enabled : c.enabled ≡ b.enabled
  ready : c.encoder_ready ≡ true

prepared-Prepared :
    (b : AudioEncodeBridge) (e : AacEncoder) (w : Wire)
    → starts b e ≡ true
    → Prepared b e w (prepared b e w)
unfolding prepared ensure_encoder send_asc_if_ready asc_retry_needed starts asc_answer
    set_audio_config
prepared-Prepared b e w h = record {
  ring = ground arith;
  fed = ground arith;
  rate = ground arith;
  channels = ground arith;
  enabled = ground arith;
  ready = ground arith;
}

prepared_asc :
    (b : AudioEncodeBridge) (e : AacEncoder) (w : Wire)
    → starts b e ≡ true
    → (prepared b e w).asc_sent
      ≡ (if b.encoder_ready
          then b.asc_sent
          else (if b.has_out && e.has_asc then asc_answer b e w w.at_start else b.asc_sent))
        || asc_answer b e w w.later
unfolding prepared ensure_encoder send_asc_if_ready asc_retry_needed starts asc_answer
    set_audio_config
prepared_asc b e w h = ground arith

drift_valve-kept :
    (b : AudioEncodeBridge) (t : ℤ)
    → ((drift_valve b t).0.ring ≡ b.ring)
      × ((drift_valve b t).0.fed ≡ b.fed)
      × ((drift_valve b t).0.enabled ≡ b.enabled)
      × ((drift_valve b t).0.asc_sent ≡ b.asc_sent)
unfolding drift_valve
drift_valve-kept b t = ground arith

drain-prepared :
    (b : AudioEncodeBridge) (e : AacEncoder) (w : Wire) (t : ℤ)
    → b.enabled ≡ true
    → starts b e ≡ true
    → (drain b e w t).0 ≡ (drift_valve (consume_all 17 (prepared b e w) e w).0 t).0
unfolding drain prepared ensure_encoder starts
drain-prepared b e w t on h = ground arith

-- While sound is on and the encoder runs or starts now, a drain gives the encoder every waiting
-- chunk of the configured format, oldest first, and no other chunk; the loop ends with the ring
-- empty; sound stays on exactly when no chunk had another format; and the decoder configuration
-- counts as sent when it was already or when one of the drain's attempts was answered.
pub drain_feeds :
    (b : AudioEncodeBridge) (e : AacEncoder) (w : Wire) (t : ℤ)
    → IsValid b.ring
    → b.enabled ≡ true
    → starts b e ≡ true
    → let after = (drain b e w t).0 in
      let waiting = contents b.ring in
      (after.fed
        ≡ (if b.encoder_ready then b.fed else []) ++ matching b.channels b.sample_rate waiting)
      × (contents after.ring ≡ [])
      × (after.enabled ≡ all_match b.channels b.sample_rate waiting)
      × (after.asc_sent
          ≡ (if b.encoder_ready
              then b.asc_sent
              else (if b.has_out && e.has_asc then asc_answer b e w w.at_start else b.asc_sent))
            || asc_answer b e w w.later)
drain_feeds b e w t v on h =
    let p = prepared-Prepared b e w h in
    let took =
      consume_all-Took 17 (prepared b e w) e w (subst IsValid (sym p.ring) v)
        (rw p.ring (omega (arith, length-contents b.ring, v.fits))) in
    let kept = drift_valve-kept (consume_all 17 (prepared b e w) e w).0 t in
    let whole = drain-prepared b e w t on h in
    (
      ap (λ a. a.fed) whole ∙ kept.1 ∙ took.0.fed ∙ rw (p.ring, p.fed, p.rate, p.channels) refl,
      ap (λ a. contents a.ring) whole ∙ ap contents kept.0 ∙ took.1,
      ap (λ a. a.enabled) whole
          ∙ kept.2
          ∙ took.0.enabled
          ∙ rw (p.ring, p.enabled, p.rate, p.channels) (rw on refl),
      ap (λ a. a.asc_sent) whole ∙ kept.3 ∙ took.0.asc ∙ prepared_asc b e w h,
    )
