-- ===== src/Pipeline/Lifecycle/Opening.antt =====
-- Pipeline::init of pipeline.cpp, stage by stage, on what the healing and the transport need.
use reji_studio.Base.{
  min, ◌≡◌, refl, sym, subst, ap, ◌∙◌, Bool, true, false, some, [], ◌∷◌, ◌++◌, arith, ◌==◌,
  if◌then◌else◌, Bool-cases, inl, inr,
}
use reji_studio.Policy.Bitrate.{reduce_floor_for_target}
use reji_studio.Source.Desktop.{ExistingDesktopSource}
use reji_studio.Output
use reji_studio.Output.{OutputSubsystem, set_streaming}
use reji_studio.Trace.{Event, Trace}
use reji_studio.Pipeline.State.{Impl, Config}
use reji_studio.Pipeline.Setup.{
  SetupAnswers, ComAnswer, init, start_up, finish_init, start_pacer, start_source, with_source,
  with_com, accept_config, begin_clock, start_encoder, start_audio,
}

-- What a successful start keeps of the state that it began with.
pub record Begun (s t : Impl) : Type 0 where
  pub bitrate : t.bitrate_kbps ≡ s.bitrate_kbps
  pub floor : t.cfg.min_bitrate_kbps ≡ s.cfg.min_bitrate_kbps
  pub target : t.cfg.original_bitrate_kbps ≡ s.cfg.original_bitrate_kbps
  pub router : t.command_router ≡ s.command_router
  pub wire : t.output_sub.transport_atomic ≡ s.output_sub.transport_atomic
  pub off : t.streaming ≡ s.streaming

finish_init-Begun :
    (s : Impl) (cfg : Config) (source : ExistingDesktopSource) (a : SetupAnswers)
    → Begun s (finish_init s cfg source a) × ((finish_init s cfg source a).initialized ≡ true)
unfolding finish_init start_encoder start_audio Output.init
finish_init-Begun s cfg source a = (
  record {
    bitrate = ground arith;
    floor = ground arith;
    target = ground arith;
    router = ground arith;
    wire = ground arith;
    off = ground arith;
  },
  refl,
)

with_source-Begun : (s : Impl) (cfg : Config) (a : SetupAnswers) → Begun s (with_source s cfg a)
unfolding with_source begin_clock
with_source-Begun s cfg a = record {
  bitrate = ground arith;
  floor = ground arith;
  target = ground arith;
  router = ground arith;
  wire = ground arith;
  off = ground arith;
}

Begun-trans : {s t u : Impl} → Begun s t → Begun t u → Begun s u
Begun-trans b c = record {
  bitrate = c.bitrate ∙ b.bitrate;
  floor = c.floor ∙ b.floor;
  target = c.target ∙ b.target;
  router = c.router ∙ b.router;
  wire = c.wire ∙ b.wire;
  off = c.off ∙ b.off;
}

plain : (s : Impl) (owned : Bool) (t : Trace) → Begun s (record s { com_owned = owned; trace = t })
plain s owned t = record {
  bitrate = refl;
  floor = refl;
  target = refl;
  router = refl;
  wire = refl;
  off = refl;
}

start_up_finishes :
    (s : Impl) (cfg : Config) (a : SetupAnswers)
    → (start_up s cfg a).1 ≡ true
    → (start_up s cfg a).0 ≡ finish_init (with_source s cfg a) cfg (start_source a).0 a
unfolding start_up
start_up_finishes s cfg a ok = elim (Bool-cases (start_pacer s cfg a).1) [
  | inl paced ↦ elim (Bool-cases (start_source a).1) [
    | inl sourced ↦ rw (paced, sourced) refl
    | inr lost ↦ absurd (ground arith)
  ]
  | inr unpaced ↦ absurd (ground arith)
]

start_up-Begun :
    (s : Impl) (cfg : Config) (a : SetupAnswers)
    → (start_up s cfg a).1 ≡ true
    → Begun s (start_up s cfg a).0 × ((start_up s cfg a).0.initialized ≡ true)
start_up-Begun s cfg a ok =
    let made = finish_init-Begun (with_source s cfg a) cfg (start_source a).0 a in
    subst (λ t. Begun s t × (t.initialized ≡ true)) (sym (start_up_finishes s cfg a ok))
      (Begun-trans (with_source-Begun s cfg a) made.0, made.1)

pub with_com-Begun :
    (s : Impl) (cfg : Config) (a : SetupAnswers) (answer : ComAnswer)
    → (with_com s cfg a answer).1 ≡ true
    → Begun s (with_com s cfg a answer).0 × ((with_com s cfg a answer).0.initialized ≡ true)
unfolding with_com
with_com-Begun s cfg a ComAnswer.changed_mode ok =
    let begun = start_up-Begun (record s { com_owned = false }) cfg a ok in
    (Begun-trans (plain s false s.trace) begun.0, begun.1)
with_com-Begun s cfg a ComAnswer.com_failed ok = absurd (ground arith)
with_com-Begun s cfg a ComAnswer.com_ok ok =
    let called = s.trace ++ (Event.com_init ∷ []) in
    let begun = start_up-Begun (record s { com_owned = true; trace = called }) cfg a ok in
    (Begun-trans (plain s true called) begun.0, begun.1)

abbrev pub accepted : Impl → Config → SetupAnswers → Impl
accepted s cfg a =
    accept_config (record s { metrics_sub = record (s.metrics_sub) { metrics = some a.collector } })
      cfg

pub opened :
    (s : Impl) (cfg : Config) (a : SetupAnswers)
    → s.initialized ≡ false
    → (cfg.fps == 0) ≡ false
    → init s cfg a ≡ with_com (accepted s cfg a) cfg a a.com_init
unfolding init
opened s cfg a i f =
    ap
      (λ b.
        if b
        then (s, true)
        else if cfg.fps == 0
        then (s, false)
        else with_com (accepted s cfg a) cfg a a.com_init)
      i
    ∙ ap (λ b. if b then (s, false) else with_com (accepted s cfg a) cfg a a.com_init) f

-- What accepting a configuration sets.
pub accepted-bounds :
    (s : Impl) (cfg : Config) (a : SetupAnswers)
    → ((accepted s cfg a).bitrate_kbps ≡ cfg.bitrate_kbps)
      × ((accepted s cfg a).cfg.min_bitrate_kbps ≡ min cfg.min_bitrate_kbps cfg.bitrate_kbps)
      × ((accepted s cfg a).cfg.original_bitrate_kbps ≡ cfg.bitrate_kbps)
unfolding accept_config reduce_floor_for_target
accepted-bounds s cfg a = (refl, refl, refl)

pub accepted-kept :
    (s : Impl) (cfg : Config) (a : SetupAnswers)
    → ((accepted s cfg a).command_router ≡ s.command_router)
      × ((accepted s cfg a).output_sub.transport_atomic ≡ s.output_sub.transport_atomic)
      × ((accepted s cfg a).streaming ≡ s.streaming)
unfolding accept_config
accepted-kept s cfg a = (refl, refl, refl)
