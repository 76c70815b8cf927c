-- ===== src/Output.antt =====
-- src/pipeline/output_subsystem.cpp: the owner of the transport and the pointer that the packet
-- callback reads. The transport is an ITransport: its answers are arguments. A call that faults is
-- caught by the SEH leaf and read as -2.
use reji_studio.Base.{
  ℕ, zero, suc, Bool, true, false, not, Option, none, some, [], ◌∷◌, if◌then◌else◌,
}
use reji_studio.Base.Int.{ℤ, pos, negsuc}
use reji_studio.Trace.{Event, Trace}

-- A transport is known by a number.
pub record OutputSubsystem : Type 0 where
  pub transport : Option ℕ
  pub transport_atomic : Option ℕ

abbrev pub new_output : OutputSubsystem
new_output = record { transport = none; transport_atomic = none }

-- A guarded call returns, or its fault is caught.
pub data Answer : Type 0 where
  returned : Bool → Answer
  faulted : Answer

pub record TransportAnswers : Type 0 where
  pub is_connected : Bool
  pub send : Answer
  pub set_audio_config : Bool
  pub send_audio : Answer

unfoldable pub seh_srt_send : Answer → ℤ
seh_srt_send (returned true) = pos 0
seh_srt_send (returned false) = pos 1
seh_srt_send faulted = negsuc 1

abbrev pub is_zero : ℤ → Bool
is_zero (pos zero) = true
is_zero (pos (suc n)) = false
is_zero (negsuc n) = false

unfoldable pub init : OutputSubsystem → ℕ → Bool → OutputSubsystem × Bool
init o created init_ok = (record o { transport = if init_ok then some created else none }, init_ok)

unfoldable pub set_streaming : OutputSubsystem → Bool → OutputSubsystem
set_streaming o active = record o { transport_atomic = if active then o.transport else none }

-- The calls on the transport, and the result.
unfoldable pub send : OutputSubsystem → TransportAnswers → ℤ → Trace × Bool
unfolding seh_srt_send
send o a pts = elim o.transport_atomic [
  | none ↦ ([], true)
  | some out ↦
      if not a.is_connected
      then ([], true)
      else (Event.wire_video pts ∷ [], is_zero (seh_srt_send a.send))
]

unfoldable pub set_audio_config : OutputSubsystem → TransportAnswers → Trace × Bool
set_audio_config o a = elim o.transport_atomic [
  | none ↦ ([], false)
  | some out ↦ (Event.wire_audio_config ∷ [], a.set_audio_config)
]

unfoldable pub send_audio : OutputSubsystem → TransportAnswers → ℤ → Trace × Bool
unfolding seh_srt_send
send_audio o a pts = elim o.transport_atomic [
  | none ↦ ([], true)
  | some out ↦ (Event.wire_audio pts ∷ [], is_zero (seh_srt_send a.send_audio))
]

unfoldable pub shutdown : OutputSubsystem → OutputSubsystem
shutdown o = record { transport = none; transport_atomic = none }
