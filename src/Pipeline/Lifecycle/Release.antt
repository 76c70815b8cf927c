-- ===== src/Pipeline/Lifecycle/Release.antt =====
-- src/pipeline/pipeline.cpp: what the shutdown leaves.
use reji_studio.Base.{
  ◌≡◌, refl, ap, ◌∙◌, Bool, true, false, ◌||◌, Option, none, some, is_some, arith, if◌then◌else◌,
  Bool-cases, inl, inr,
}
use reji_studio.Source.Desktop
use reji_studio.Source.Desktop.{ExistingDesktopSource}
use reji_studio.Encode
use reji_studio.Output
use reji_studio.Output.{set_streaming}
use reji_studio.Interop
use reji_studio.Audio.Bridge
use reji_studio.Audio.Bridge.Drain.Chunks.{on_frames-SameBut}
use reji_studio.Pipeline.State.{Impl}
use reji_studio.Pipeline.Commands.{is_running}
use reji_studio.Pipeline.Streaming.{IsLinked}
use reji_studio.Pipeline.Teardown.{ShutdownAnswers, tear_down, shutdown, silent, source_closed}

-- Whether a source has a capture or a DXGI pipeline.
abbrev pub has_capture : Option ExistingDesktopSource → Bool
has_capture none = false
has_capture (some source) = is_some source.capture || is_some source.dxgi

-- Nothing is held any more.
pub record IsReleased (s : Impl) : Type 0 where
  pub stopped : is_running s ≡ false
  pub capture : has_capture s.source ≡ false
  pub encoder : s.encode_sub.encoder ≡ none
  pub transport : s.output_sub.transport ≡ none
  pub wire : s.output_sub.transport_atomic ≡ none
  pub audio : s.audio_sub ≡ none
  pub bridge : s.audio_bridge.enabled ≡ false
  pub aac : s.audio_bridge.encoder_ready ≡ false
  pub copy : s.repeat_tex ≡ none
  pub images : s.gpu_sub.has_bridge ≡ false
  pub timer : s.timer_set ≡ false
  pub com_apartment : s.com_owned ≡ false

bridge_off :
    (b : Bridge.AudioEncodeBridge) (e : Bridge.AacEncoder) (w : Bridge.Wire)
    → ((Bridge.shutdown b e w).0.enabled ≡ false)
      × ((Bridge.shutdown b e w).0.encoder_ready ≡ false)
unfolding Bridge.shutdown
bridge_off b e w =
    let off = on_frames-SameBut (record b { enabled = false }) w.output w.later (e.flushed b.fed) in
    ground (arith, off.enabled)

no_capture : (source : Option ExistingDesktopSource) → has_capture (source_closed source).0 ≡ false
unfolding Desktop.shutdown
no_capture none = refl
no_capture (some source) = refl

pub tear_down-IsReleased : (s : Impl) (a : ShutdownAnswers) → IsReleased (tear_down s a).0
unfolding tear_down is_running Output.shutdown Encode.shutdown Interop.shutdown
tear_down-IsReleased s a =
    let off = bridge_off s.audio_bridge a.aac (silent (set_streaming s.output_sub false)) in
    record {
      stopped = refl;
      capture = no_capture s.source;
      encoder = refl;
      transport = refl;
      wire = refl;
      audio = refl;
      bridge = off.0;
      aac = off.1;
      copy = refl;
      images = refl;
      timer = refl;
      com_apartment = refl;
    }

pub torn : (s : Impl) (a : ShutdownAnswers) → s.shutdown_once ≡ false → shutdown s a ≡ tear_down s a
unfolding shutdown
torn s a h = ap (λ b. if b then (s, true) else tear_down s a) h

pub done_before :
    (s : Impl) (a : ShutdownAnswers) → s.shutdown_once ≡ true → shutdown s a ≡ (s, true)
unfolding shutdown
done_before s a h = ap (λ b. if b then (s, true) else tear_down s a) h

pub tear_down-IsLinked : (s : Impl) (a : ShutdownAnswers) → IsLinked (tear_down s a).0
unfolding tear_down Output.shutdown IsLinked
tear_down-IsLinked s a = refl

pub spent : (s : Impl) (a : ShutdownAnswers) → (shutdown s a).0.shutdown_once ≡ true
unfolding tear_down
spent s a = elim (Bool-cases s.shutdown_once) [
  | inl done ↦ ap (λ r. r.0.shutdown_once) (done_before s a done) ∙ done
  | inr fresh ↦ ap (λ r. r.0.shutdown_once) (torn s a fresh)
]

pub shutdown-IsReleased :
    (s : Impl) (a : ShutdownAnswers) → s.shutdown_once ≡ false → IsReleased (shutdown s a).0
shutdown-IsReleased s a h =
    let first : shutdown s a ≡ tear_down s a = torn s a h in rw first (tear_down-IsReleased s a)
