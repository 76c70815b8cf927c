-- ===== src/Pipeline/Commands.antt =====
-- src/pipeline/pipeline.cpp: starting and stopping the stream, the healing actions of the rule
-- engine, and what the frame thread does with a drained command.
use reji_studio.Base.{
  ℕ, ◌^◌, min, max, Bool, true, false, ◌&&◌, not, Option, none, some, is_some, [], ◌∷◌, ◌++◌, ltb,
  ◌==◌, if◌then◌else◌,
}
use reji_studio.Base.Int.{ℤ, pos, ltb_ℤ, sub_ℕ}
use reji_studio.Policy.Bitrate.{reduce_step_bitrate, recover_step_bitrate}
use reji_studio.Encode.{set_bitrate, set_resolution, set_fps_limit, request_idr}
use reji_studio.Output.{set_streaming}
use reji_studio.Router.{
  ActionType, FrameCmd, RjCommand, CommandType, Handlers, push_frame_cmd, to_u32,
}
use reji_studio.Trace.{Event, Trace}
use reji_studio.Pipeline.State.{Impl}

abbrev pub emit : Impl → Trace → Impl
emit s t = record s { trace = s.trace ++ t }

-- WasapiCapture's start and stop, if there is a capture; their results are not used.
abbrev pub audio_call : Option ℕ → Event → Trace
audio_call none e = []
audio_call (some a) e = e ∷ []

unfoldable pub start_stream : Impl → Impl × Bool
unfolding request_idr set_streaming
start_stream s = if not s.initialized then (s, false) else if s.streaming then (s, true) else (
  emit
      (record s {
        streaming = true;
        encode_sub = request_idr s.encode_sub;
        output_sub = set_streaming s.output_sub true;
      })
      (audio_call s.audio_sub Event.audio_start),
  true,
)

unfoldable pub stop_stream : Impl → Impl × Bool
unfolding set_streaming
stop_stream s = if not s.streaming then (s, true) else (
  emit (record s { streaming = false; output_sub = set_streaming s.output_sub false })
      (audio_call s.audio_sub Event.audio_stop),
  true,
)

unfoldable pub is_running : Impl → Bool
is_running s = s.initialized && s.streaming

unfoldable pub invoke_scene_cmd : Impl → ℕ → ℕ → Impl
invoke_scene_cmd s cmd param =
    if s.scene_cmd_cb then emit s (Event.scene_command cmd param ∷ []) else s

-- The encoder is reconfigured, the stored bitrate follows, and the rule engine is told both.
abbrev pub store_bitrate : Impl → ℕ → Impl
store_bitrate s kbps =
    emit (record s { bitrate_kbps = kbps })
      ((set_bitrate s.encode_sub kbps true).0
        ++ (Event.update_bitrate_state kbps s.cfg.original_bitrate_kbps ∷ []))

unfoldable pub apply_frame_cmd : Impl → FrameCmd → Impl
unfolding set_bitrate set_resolution set_fps_limit
apply_frame_cmd s cmd =
    let bitrate = if ltb_ℤ (pos 0) cmd.param1 then store_bitrate s (to_u32 cmd.param1) else s in
    let resolution = emit s (set_resolution s.encode_sub cmd.param1 true).0 in
    if not (is_some s.encode_sub.encoder) then s else elim cmd.action_type [
      | ActionType.bitrate_reduce ↦ bitrate
      | ActionType.bitrate_recover ↦ bitrate
      | ActionType.scale_resolution ↦ resolution
      | ActionType.restore_resolution ↦ resolution
      | ActionType.cap_fps ↦ emit s (set_fps_limit s.encode_sub (to_u32 cmd.param1) true).0
      | ActionType.unknown n ↦ s
    ]

unfoldable pub apply_command : Impl → RjCommand → Impl
unfolding set_bitrate
apply_command s c = elim c.cmd_type [
  | CommandType.bitrate_set ↦
      if is_some s.encode_sub.encoder && ltb 0 c.param_u32 then store_bitrate s c.param_u32 else s
  | CommandType.scene_switch ↦ s
  | CommandType.preview_fps ↦ s
  | CommandType.unknown_cmd n ↦ s
]

unfoldable pub handle_start_stop : Impl → ℕ → Impl
unfolding start_stream stop_stream
handle_start_stop s ws_cmd =
    if ws_cmd == 1 then (start_stream s).0 else if ws_cmd == 2 then (stop_stream s).0 else s

-- What run_frame and init give the router.
abbrev pub handlers : Handlers Impl
handlers = record {
  apply_command = apply_command;
  apply_frame_cmd = apply_frame_cmd;
  handle_start_stop = handle_start_stop;
  scene_cb = some invoke_scene_cmd;
}

pub record RjAction : Type 0 where
  pub action_type : ActionType
  pub param1 : ℤ

-- static_cast<int32_t> of a uint32_t.
abbrev pub to_i32 : ℕ → ℤ
to_i32 n = if ltb n (2 ^ 31) then pos n else sub_ℕ n (2 ^ 32)

-- The command is pushed; a full ring drops it silently.
abbrev pub forward : Impl → ActionType → ℤ → Impl
forward s t param1 = record s {
  command_router =
      (push_frame_cmd s.command_router (record { action_type = t; param1 = param1 })).0;
}

unfoldable pub reduced_bitrate : Impl → ℤ → ℕ
reduced_bitrate s step = max (reduce_step_bitrate s.bitrate_kbps step) s.cfg.min_bitrate_kbps

unfoldable pub recovered_bitrate : Impl → ℤ → ℕ
recovered_bitrate s step =
    min (recover_step_bitrate s.bitrate_kbps step) s.cfg.original_bitrate_kbps

unfoldable pub apply_action : Impl → RjAction → Impl × Bool
unfolding push_frame_cmd reduced_bitrate recovered_bitrate
apply_action s a = elim a.action_type [
  | ActionType.bitrate_reduce ↦
      (forward s ActionType.bitrate_reduce (to_i32 (reduced_bitrate s a.param1)), true)
  | ActionType.bitrate_recover ↦
      if ltb s.bitrate_kbps s.cfg.original_bitrate_kbps
      then (forward s ActionType.bitrate_recover (to_i32 (recovered_bitrate s a.param1)), true)
      else (s, false)
  | ActionType.scale_resolution ↦ (forward s ActionType.scale_resolution a.param1, true)
  | ActionType.restore_resolution ↦ (forward s ActionType.restore_resolution a.param1, true)
  | ActionType.cap_fps ↦ (forward s ActionType.cap_fps a.param1, true)
  | ActionType.unknown n ↦ (s, false)
]
