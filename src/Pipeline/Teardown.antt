-- ===== src/Pipeline/Teardown.antt =====
-- src/pipeline/pipeline.cpp: the shutdown, which runs once.
use reji_studio.Base.{
  ℕ, Bool, true, false, ◌&&◌, ◌||◌, not, Option, none, some, List, [], ◌∷◌, ◌++◌, if◌then◌else◌,
}
use reji_studio.Source.Desktop
use reji_studio.Source.Desktop.{ExistingDesktopSource}
use reji_studio.Encode
use reji_studio.Encode.{destroyed}
use reji_studio.Output
use reji_studio.Output.{set_streaming}
use reji_studio.Interop
use reji_studio.Audio.Bridge
use reji_studio.Audio.Bridge.{AacEncoder}
use reji_studio.Trace.{Event, Trace}
use reji_studio.Pipeline.State.{Impl}
use reji_studio.Pipeline.Commands.{emit}

-- What faults: the guarded teardown, and CoUninitialize. A fault in the first stops it midway: the
-- calls before it are an argument.
pub data TeardownAnswer : Type 0 where
  complete : TeardownAnswer
  fault_after : List Event → TeardownAnswer

pub record ShutdownAnswers : Type 0 where
  pub teardown : TeardownAnswer
  pub uninit_ok : Bool
  pub aac : AacEncoder

abbrev pub calls_on : Option ℕ → List Event → Trace
calls_on none es = []
calls_on (some x) es = es

abbrev pub encoder_calls : Impl → List Event → Trace
encoder_calls s es = elim s.encode_sub.encoder [ none ↦ [] | some e ↦ es ]

-- The guarded calls on the raw pointers, and whether they returned.
unfoldable pub seh_shutdown_subsystems : Impl → TeardownAnswer → Trace × Bool
seh_shutdown_subsystems s TeardownAnswer.complete = (
  calls_on s.audio_sub (Event.audio_stop ∷ Event.audio_shutdown ∷ [])
      ++ (encoder_calls s (Event.encoder_flush ∷ Event.encoder_shutdown ∷ [])
          ++ calls_on s.output_sub.transport (Event.transport_shutdown ∷ [])),
  true,
)
seh_shutdown_subsystems s (TeardownAnswer.fault_after es) = (es, false)

abbrev pub source_closed : Option ExistingDesktopSource → Option ExistingDesktopSource × Trace
source_closed none = (none, [])
source_closed (some source) = (some (Desktop.shutdown source), Event.source_shutdown ∷ [])

abbrev pub if_set : Bool → Event → Trace
if_set true e = e ∷ []
if_set false e = []

-- A transport that takes nothing: the pointer is null by then.
abbrev pub no_answers : Output.TransportAnswers
no_answers = record {
  is_connected = false;
  send = Output.Answer.faulted;
  set_audio_config = false;
  send_audio = Output.Answer.faulted;
}

abbrev pub silent : Output.OutputSubsystem → Bridge.Wire
silent o = record { output = o; at_start = no_answers; later = no_answers }

-- The body of the call_once.
unfoldable pub tear_down : Impl → ShutdownAnswers → Impl × Bool
unfolding set_streaming seh_shutdown_subsystems Bridge.shutdown Output.shutdown Encode.shutdown
    Desktop.shutdown Interop.shutdown
tear_down s a =
    let quiet = record s { streaming = false; output_sub = set_streaming s.output_sub false } in
    let guarded = seh_shutdown_subsystems quiet a.teardown in
    let bridge = Bridge.shutdown s.audio_bridge a.aac (silent quiet.output_sub) in
    let closed = source_closed s.source in
    (
      emit
          (record quiet {
            audio_sub = none;
            audio_bridge = bridge.0;
            output_sub = Output.shutdown quiet.output_sub;
            encode_sub = Encode.shutdown s.encode_sub;
            source = closed.0;
            repeat_tex = none;
            gpu_sub = Interop.shutdown s.gpu_sub;
            timer_set = false;
            com_owned = false;
            initialized = false;
            shutdown_once = true;
          })
          (Event.router_stop
            ∷ Event.metrics_stop
            ∷ (guarded.0
                ++ (calls_on s.audio_sub (Event.audio_destroy ∷ [])
                    ++ (bridge.1
                        ++ (calls_on s.output_sub.transport (Event.transport_destroy ∷ [])
                            ++ (destroyed s.encode_sub.encoder
                                ++ (closed.1
                                    ++ (Event.gpu_shutdown
                                        ∷ (if_set s.timer_set Event.timer_end
                                            ++ if_set s.com_owned Event.com_uninit))))))))),
      guarded.1 && (not s.com_owned || a.uninit_ok),
    )

unfoldable pub shutdown : Impl → ShutdownAnswers → Impl × Bool
unfolding tear_down
shutdown s a = if s.shutdown_once then (s, true) else tear_down s a
