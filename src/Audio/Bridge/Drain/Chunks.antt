-- ===== src/Audio/Bridge/Drain/Chunks.antt =====
-- AudioEncodeBridge::drain_and_encode over the chunks that wait, one by one.
use reji_studio.Base.{
  ℕ, zero, suc, ◌≤◌, ◌≡◌, refl, sym, ap, ◌∙◌, subst, inl, inr, Bool, true, ◌&&◌, Option, none, some,
  List, [], ◌∷◌, ◌++◌, append_assoc, append-nil, arith, if◌then◌else◌, length, Bool-cases,
  Option-cases,
}
use reji_studio.Base.Int.{ℤ}
use reji_studio.Audio.Ring.{AudioRing, Delivered, consume}
use reji_studio.Audio.Ring.Refine.{IsValid, contents, queue_pop, consume_refines, consume-IsValid}
use reji_studio.Audio.Format.{format_matches}
use reji_studio.Audio.Bridge.{
  AudioEncodeBridge, AacEncoder, Wire, on_aac, on_frames, take_chunk, consume_all, matches,
}
use reji_studio.Trace.{Trace}
use reji_studio.Output.{OutputSubsystem, TransportAnswers}

-- The chunks of the configured format, and whether there are no others.
unfoldable pub matching : ℕ → ℕ → List Delivered → List Delivered
matching channels rate [] = []
matching channels rate (d ∷ ds) =
    let rest = matching channels rate ds in
    if format_matches d.channels d.sample_rate channels rate then d ∷ rest else rest

unfoldable pub all_match : ℕ → ℕ → List Delivered → Bool
all_match channels rate [] = true
all_match channels rate (d ∷ ds) =
    format_matches d.channels d.sample_rate channels rate && all_match channels rate ds

-- What no frame of the encoder changes.
pub record SameBut (b c : AudioEncodeBridge) : Type 0 where
  pub ring : c.ring ≡ b.ring
  pub fed : c.fed ≡ b.fed
  pub rate : c.sample_rate ≡ b.sample_rate
  pub channels : c.channels ≡ b.channels
  pub enabled : c.enabled ≡ b.enabled
  pub ready : c.encoder_ready ≡ b.encoder_ready
  pub asc : c.asc_sent ≡ b.asc_sent

pub on_frames-SameBut :
    (b : AudioEncodeBridge) (o : OutputSubsystem) (a : TransportAnswers) (ps : List ℤ)
    → SameBut b (on_frames b o a ps).0
unfolding on_frames on_aac
on_frames-SameBut b o a [] = record {
  ring = refl;
  fed = refl;
  rate = refl;
  channels = refl;
  enabled = refl;
  ready = refl;
  asc = refl;
}
on_frames-SameBut b o a (p ∷ ps) =
    let rest = on_frames-SameBut (on_aac b o a p).0 o a ps in
    record {
      ring = rest.ring;
      fed = rest.fed;
      rate = rest.rate;
      channels = rest.channels;
      enabled = rest.enabled;
      ready = rest.ready;
      asc = rest.asc;
    }

-- The bridge after the chunks `ds` have been taken from it.
pub record Took (b : AudioEncodeBridge) (ds : List Delivered) (c : AudioEncodeBridge) : Type 0 where
  pub fed : c.fed ≡ b.fed ++ matching b.channels b.sample_rate ds
  pub enabled : c.enabled ≡ (b.enabled && all_match b.channels b.sample_rate ds)
  pub rate : c.sample_rate ≡ b.sample_rate
  pub channels : c.channels ≡ b.channels
  pub ready : c.encoder_ready ≡ b.encoder_ready
  pub asc : c.asc_sent ≡ b.asc_sent

take_chunk-Took :
    (b : AudioEncodeBridge) (e : AacEncoder) (w : Wire) (d : Delivered)
    → Took b (d ∷ []) (take_chunk b e w d).0 × ((take_chunk b e w d).0.ring ≡ b.ring)
unfolding take_chunk matching all_match
take_chunk-Took b e w d =
    let frames =
      on_frames-SameBut (record b { fed = b.fed ++ (d ∷ []) }) w.output w.later
        (e.frames b.fed d) in
    elim (Bool-cases (matches b d)) [
      | inl same ↦ rw same (
        record {
          fed = ground (arith, frames.fed);
          enabled = ground (arith, frames.enabled);
          rate = frames.rate;
          channels = frames.channels;
          ready = frames.ready;
          asc = frames.asc;
        },
        frames.ring,
      )
      | inr other ↦ rw other (
        record {
          fed = ground (arith, append-nil b.fed);
          enabled = ground arith;
          rate = refl;
          channels = refl;
          ready = refl;
          asc = refl;
        },
        refl,
      )
    ]

Took-append :
    {b c c' : AudioEncodeBridge} {d : Delivered} {ds : List Delivered}
    → Took b (d ∷ []) c
    → Took c ds c'
    → Took b (d ∷ ds) c'
unfolding matching all_match
Took-append {b} {c} {c'} {d} {ds} s t = record {
  fed =
      rw (t.fed, s.fed, s.rate, s.channels)
        (ground (
          arith,
          append_assoc b.fed (matching b.channels b.sample_rate (d ∷ []))
              (matching b.channels b.sample_rate ds),
        ));
  enabled = rw (t.enabled, s.enabled, s.rate, s.channels) (ground arith);
  rate = t.rate ∙ s.rate;
  channels = t.channels ∙ s.channels;
  ready = t.ready ∙ s.ready;
  asc = t.asc ∙ s.asc;
}

popped_none :
    (q rest : List Delivered) (o : Option Delivered) → (rest, o) ≡ queue_pop q → o ≡ none → q ≡ []
unfolding queue_pop
popped_none [] rest o e n = refl
popped_none (x ∷ q) rest o e n = absurd (ground arith)

popped_some :
    (q rest : List Delivered) (o : Option Delivered) (d : Delivered)
    → (rest, o) ≡ queue_pop q
    → o ≡ some d
    → q ≡ d ∷ rest
unfolding queue_pop
popped_some [] rest o d e n = absurd (ground arith)
popped_some (x ∷ q) rest o d e n = cc

Took-nothing : (b : AudioEncodeBridge) → Took b [] b
unfolding matching all_match
Took-nothing b = record {
  fed = sym (append-nil b.fed);
  enabled = ground arith;
  rate = refl;
  channels = refl;
  ready = refl;
  asc = refl;
}

Took-more :
    {b c c' : AudioEncodeBridge} {r : AudioRing} {d : Delivered} {ds : List Delivered}
    → Took (record b { ring = r }) (d ∷ []) c
    → Took c ds c'
    → Took b (d ∷ ds) c'
Took-more s t =
    let both = Took-append s t in
    record {
      fed = both.fed;
      enabled = both.enabled;
      rate = both.rate;
      channels = both.channels;
      ready = both.ready;
      asc = both.asc;
    }

consume_all-end :
    (fuel : ℕ) (b : AudioEncodeBridge) (e : AacEncoder) (w : Wire)
    → (consume b.ring).1 ≡ none
    → consume_all (suc fuel) b e w ≡ (b, [])
unfolding consume_all
consume_all-end fuel b e w ended = rw (consume_all, ended) refl

abbrev next : AudioEncodeBridge → AacEncoder → Wire → Delivered → AudioEncodeBridge × Trace
next b e w d = take_chunk (record b { ring = (consume b.ring).0 }) e w d

consume_all-next :
    (fuel : ℕ) (b : AudioEncodeBridge) (e : AacEncoder) (w : Wire) (d : Delivered)
    → (consume b.ring).1 ≡ some d
    → (consume_all (suc fuel) b e w).0 ≡ (consume_all fuel (next b e w d).0 e w).0
unfolding consume_all
consume_all-next fuel b e w d taken = rw (consume_all, taken) refl

-- The loop ends by its own test when the fuel exceeds the number of chunks.
pub consume_all-Took :
    (fuel : ℕ) (b : AudioEncodeBridge) (e : AacEncoder) (w : Wire)
    → IsValid b.ring
    → suc (length (contents b.ring)) ≤ fuel
    → Took b (contents b.ring) (consume_all fuel b e w).0
      × (contents (consume_all fuel b e w).0.ring ≡ [])
      × IsValid (consume_all fuel b e w).0.ring
consume_all-Took zero b e w v le = absurd (omega arith)
consume_all-Took (suc fuel) b e w v le =
    let refined = consume_refines b.ring v in
    elim (Option-cases (consume b.ring).1) [
      | inl ended ↦
          let empty = popped_none (contents b.ring) (contents (consume b.ring).0) _ refined ended in
          rw (consume_all-end fuel b e w ended, empty) (Took-nothing b, refl, v)
      | inr (d, taken) ↦
          let more =
            popped_some (contents b.ring) (contents (consume b.ring).0) _ d refined taken in
          let one = take_chunk-Took (record b { ring = (consume b.ring).0 }) e w d in
          let kept : IsValid (take_chunk (record b { ring = (consume b.ring).0 }) e w d).0.ring =
            subst IsValid (sym one.1) (consume-IsValid b.ring v) in
          let shorter = ap contents one.1 in
          let rest =
            consume_all-Took fuel (take_chunk (record b { ring = (consume b.ring).0 }) e w d).0 e w
              kept (rw shorter (omega (arith, ap length more))) in
          rw (consume_all-next fuel b e w d taken, more)
            (
              Took-more one.0 (
                  subst (λ ds. Took (next b e w d).0 ds (consume_all fuel (next b e w d).0 e w).0)
                    shorter rest.0),
              rest.1,
              rest.2,
            )
    ]
