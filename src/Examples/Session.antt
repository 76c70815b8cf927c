-- ===== src/Examples/Session.antt =====
-- The orchestrator's theorems at a concrete session.
use reji_studio.Base.{
  ◌+◌, ◌%◌, ◌^◌, ◌≤◌, ◌≡◌, refl, min, ◌&&◌, ◌||◌, not, true, false, some, List, [], ◌∷◌, arith,
  is_some, inr, ◌==◌, if◌then◌else◌,
}
use reji_studio.Base.Int.{pos, negsuc}
use reji_studio.Recovery
use reji_studio.Recovery.{handle_device_lost}
use reji_studio.Recovery.Order.{
  EncoderFits, is_lost, watched_device, capture_back, dxgi_recovery-EncoderFits, retry_all,
  wgc_recovery_strands_encoder,
}
use reji_studio.Source.Desktop
use reji_studio.Pacer
use reji_studio.Output.{send, seh_srt_send}
use reji_studio.Source.Desktop.{Capture, metadata}
use reji_studio.Router.{ActionType, drain_and_apply, FrameCmd, apply_ws}
use reji_studio.Router.Queue.{IsValid, queued, ring_window}
use reji_studio.Router.Order.{fold, entries, drain_and_apply_order}
use reji_studio.Pipeline.State.{Impl}
use reji_studio.Pipeline.Commands.{
  start_stream, stop_stream, is_running, handlers, apply_command, apply_frame_cmd,
}
use reji_studio.Pipeline.Frame.{run_frame, drain_commands}
use reji_studio.Pipeline.Bitrate.{CommandInBand, IsAllowed, Heal, heal_all, healing_stays_in_band}
use reji_studio.Pipeline.Bitrate.Actions.{IsHealthy}
use reji_studio.Pipeline.Streaming.{IsLinked, start_stop-IsLinked}
use reji_studio.Pipeline.Drops.{sampled_drops, run_frame_reports_drops}
use reji_studio.Pipeline.Drops.Failures.{turn_failures, encode_failures, failed_send, failed_sends}
use reji_studio.Pipeline.Setup.{init, with_com, start_up, start_pacer, begin_clock, start_source}
use reji_studio.Pipeline.Lifecycle.{init_ready}
use reji_studio.Encode.{Encoder, EncodeSubsystem}
use reji_studio.Examples.Fixtures.{
  starts_with, encoder_config, fresh, config, session, off_air, setup, broken_setup, bad_turn,
  removed_device, source_of, dxgi_capture, wgc_capture, dxgi_pipeline, running_encoder, no_commands,
  bitrate_command, new_router,
}

IsValid-router : IsValid new_router
IsValid-router = record { head_in = omega arith; tail_in = omega arith }

session-IsHealthy : IsHealthy session
unfolding queued ring_window
session-IsHealthy = record {
  router = IsValid-router;
  above = omega arith;
  below = omega arith;
  small = omega arith;
  queue = tt;
}

-- A reduction, the drain that applies it together with an external change, and a recovery.
abbrev ups_and_downs : List Heal
ups_and_downs =
    Heal.action (record { action_type = ActionType.bitrate_reduce; param1 = pos 4900 })
    ∷ Heal.drained bitrate_command
    ∷ Heal.action (record { action_type = ActionType.bitrate_recover; param1 = negsuc 0 })
    ∷ Heal.drained no_commands
    ∷ []

healing_stays_in_band_example :
    (1000 ≤ (heal_all session ups_and_downs).bitrate_kbps)
    × ((heal_all session ups_and_downs).bitrate_kbps ≤ 6000)
unfolding IsAllowed CommandInBand entries
healing_stays_in_band_example =
    healing_stays_in_band session ups_and_downs session-IsHealthy
      (omega arith, ((inr (omega arith, omega arith), tt), (omega arith, (tt, tt))))

run_frame_reports_drops_example :
    ((run_frame session bad_turn).1 ≡ true)
    × ((run_frame session bad_turn).0.frame_drops ≡ 0)
    × (sampled_drops (run_frame session bad_turn).0.last_sample
        ≡ some ((0 + turn_failures (drain_commands session no_commands) bad_turn) % 2 ^ 32))
run_frame_reports_drops_example =
    run_frame_reports_drops session (source_of dxgi_capture) bad_turn IsValid-router refl refl
      (omega arith)

-- The refused packet and the failed encode make two.
two_drops : turn_failures session bad_turn ≡ 2
unfolding turn_failures encode_failures failed_sends failed_send send seh_srt_send
two_drops = refl

setup_succeeds : (init fresh config setup).1 ≡ true
unfolding init with_com start_up start_pacer begin_clock start_source Pacer.init Desktop.init
setup_succeeds = refl

init_ready_example :
    IsHealthy (init fresh config setup).0
    × IsLinked (init fresh config setup).0
    × ((init fresh config setup).0.initialized ≡ true)
    × (is_running (init fresh config setup).0 ≡ false)
    × ((init fresh config setup).0.bitrate_kbps ≡ 800)
    × ((init fresh config setup).0.cfg.original_bitrate_kbps ≡ 800)
unfolding queued ring_window
init_ready_example =
    init_ready fresh config setup refl refl refl IsValid-router refl refl (omega arith)
      setup_succeeds

abbrev retried : Impl
retried = (init (init fresh config broken_setup).0 config setup).0

start_stop-IsLinked_example :
    IsLinked (start_stream off_air).0
    × IsLinked (stop_stream off_air).0
    × ((start_stream off_air).1 ≡ true)
    × (is_running (start_stream off_air).0 ≡ true)
    × ((stop_stream off_air).1 ≡ true)
    × (is_running (stop_stream off_air).0 ≡ false)
    × (start_stream (start_stream off_air).0 ≡ start_stream off_air)
    × (stop_stream (stop_stream off_air).0 ≡ stop_stream off_air)
unfolding IsLinked
start_stop-IsLinked_example = start_stop-IsLinked off_air refl

abbrev dxgi_loss : Recovery.Recovered
dxgi_loss =
    handle_device_lost (source_of dxgi_capture) running_encoder removed_device 60 5000 1280 720

device_gone : is_lost (source_of dxgi_capture) removed_device ≡ true
unfolding is_lost watched_device
device_gone = refl

dxgi_recovery-EncoderFits_example :
    let back = capture_back (source_of dxgi_capture) removed_device in
    EncoderFits dxgi_loss 60 5000
    × (dxgi_loss.width ≡ (if back then (metadata dxgi_loss.source).width else 1280))
    × (dxgi_loss.height ≡ (if back then (metadata dxgi_loss.source).height else 720))
    × (is_some dxgi_loss.source.capture ≡ back)
    × (dxgi_loss.ok ≡ (
        back
        && (is_some dxgi_loss.encode.encoder || not (is_some (metadata dxgi_loss.source).device))))
dxgi_recovery-EncoderFits_example =
    dxgi_recovery-EncoderFits (source_of dxgi_capture) dxgi_pipeline running_encoder removed_device
      60 5000 1280 720 refl device_gone (omega arith)

-- The capture's device 7 is gone, with the encoder on it; a capture starts on device 8.
abbrev wgc_again : Capture
wgc_again = record wgc_capture { d3d_device = some 8 }

abbrev encoder_on_7 : Encoder
encoder_on_7 = record { device = 7; config = encoder_config; callback = some 1 }

abbrev encode_on_7 : EncodeSubsystem
encode_on_7 = record running_encoder { encoder = some encoder_on_7 }

abbrev only_7_gone : Recovery.LossAnswers
only_7_gone = record {
  removed = λ dev. dev == 7;
  source = starts_with wgc_again;
  encoder_init = true;
}

abbrev wgc_loss : Recovery.Recovered
wgc_loss = handle_device_lost (source_of wgc_capture) encode_on_7 only_7_gone 60 5000 1280 720

abbrev two_failures : List Recovery.LossAnswers
two_failures = only_7_gone ∷ only_7_gone ∷ []

on_7 : (metadata (source_of wgc_capture)).device ≡ some 7
unfolding metadata
on_7 = refl

wgc_recovery_strands_encoder_example :
    let last = retry_all wgc_loss 60 5000 two_failures in
    (wgc_loss.ok ≡ true)
    × (wgc_loss.encode.encoder ≡ some encoder_on_7)
    × ((metadata wgc_loss.source).device ≡ some 8)
    × (last.encode.encoder ≡ some encoder_on_7)
    × (last.ok ≡ false)
    × (last.trace ≡ [])
wgc_recovery_strands_encoder_example =
    wgc_recovery_strands_encoder (source_of wgc_capture) encode_on_7 encoder_on_7 only_7_gone
      only_7_gone (only_7_gone ∷ []) wgc_again 8 60 5000 1280 720 refl refl on_7 refl refl refl refl
      refl (refl, (refl, tt))

abbrev device_there : Recovery.LossAnswers
device_there = record removed_device { removed = λ _. false }

drain_and_apply_order_example :
    ((drain_and_apply handlers new_router bitrate_command session).1
      ≡ fold apply_frame_cmd
          (fold
            (apply_ws handlers)
            (fold apply_command session (entries (min 1 8) 0 bitrate_command.commands))
            [])
          (queued new_router))
    × (queued (drain_and_apply handlers new_router bitrate_command session).0 ≡ [])
    × IsValid (drain_and_apply handlers new_router bitrate_command session).0
drain_and_apply_order_example =
    drain_and_apply_order handlers new_router bitrate_command session IsValid-router

abbrev cap_command : FrameCmd
cap_command = record { action_type = ActionType.cap_fps; param1 = pos 30 }
