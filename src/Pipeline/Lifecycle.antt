-- ===== src/Pipeline/Lifecycle.antt =====
-- src/pipeline/pipeline.cpp: what an initialisation sets up and what the shutdown leaves.
pub mod Opening
pub mod Release
use reji_studio.Base.{◌^◌, ◌<◌, ◌≡◌, refl, sym, ap, ◌∙◌, Bool, true, false, none, [], arith, ◌==◌}
use reji_studio.Router.Queue.{IsValid, queued}
use reji_studio.Pipeline.State.{Impl, Config}
use reji_studio.Pipeline.Commands.{is_running}
use reji_studio.Pipeline.Bitrate.Actions.{IsHealthy}
use reji_studio.Pipeline.Streaming.{IsLinked}
use reji_studio.Pipeline.Setup.{SetupAnswers, ComAnswer, init}
use reji_studio.Pipeline.Lifecycle.Opening.{
  accepted, with_com-Begun, opened, accepted-bounds, accepted-kept,
}

abbrev is_com_failed : ComAnswer → Bool
is_com_failed ComAnswer.changed_mode = false
is_com_failed ComAnswer.com_failed = true
is_com_failed ComAnswer.com_ok = false

-- A first initialisation that succeeds leaves the pipeline ready and off air: the healing's
-- invariant holds with the bitrate at its target, which is the configured one, also when that lies
-- below the configured floor; nothing streams and the packet callback has no transport.
pub init_ready :
    (s : Impl) (cfg : Config) (a : SetupAnswers)
    → s.initialized ≡ false
    → s.streaming ≡ false
    → s.output_sub.transport_atomic ≡ none
    → IsValid s.command_router
    → queued s.command_router ≡ []
    → (cfg.fps == 0) ≡ false
    → cfg.bitrate_kbps < 2 ^ 31
    → (init s cfg a).1 ≡ true
    → let ready = (init s cfg a).0 in
      IsHealthy ready
      × IsLinked ready
      × (ready.initialized ≡ true)
      × (is_running ready ≡ false)
      × (ready.bitrate_kbps ≡ cfg.bitrate_kbps)
      × (ready.cfg.original_bitrate_kbps ≡ cfg.bitrate_kbps)
unfolding IsLinked is_running
init_ready s cfg a i q w v empty f small ok =
    let same = opened s cfg a i f in
    let b = with_com-Begun (accepted s cfg a) cfg a a.com_init (sym (ap (λ r. r.1) same) ∙ ok) in
    let bounds = accepted-bounds s cfg a in
    let kept = accepted-kept s cfg a in
    let router = b.0.router ∙ kept.0 in
    let off = b.0.off ∙ kept.2 ∙ q in
    rw same (
      record {
        router = rw router v;
        above = rw (b.0.floor, b.0.bitrate, bounds.0, bounds.1) (omega arith);
        below = rw (b.0.target, b.0.bitrate, bounds.0, bounds.2) (omega arith);
        small = rw (b.0.target, bounds.2) small;
        queue = rw (router, empty) tt;
      },
      rw off (b.0.wire ∙ kept.1 ∙ w),
      b.1,
      rw (off, b.1) refl,
      b.0.bitrate ∙ bounds.0,
      b.0.target ∙ bounds.2,
    )
