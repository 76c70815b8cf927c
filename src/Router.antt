-- ===== src/Router.antt =====
-- src/pipeline/include/command_router.h and command_router.cpp: the ring of frame commands between
-- the action thread and the frame thread, and what the frame thread drains in each frame. The
-- handlers are arguments, as in the source; what the foreign queues hold is an argument too.
pub mod Queue
pub mod Order
use reji_studio.Base.{
  ℕ, zero, suc, ◌+◌, ◌-◌, ◌%◌, ◌^◌, min, Bool, true, false, Option, none, some, List, [], ◌∷◌, ◌==◌,
  if◌then◌else◌, update,
}
use reji_studio.Base.Int.{ℤ, pos_part, neg_part}

abbrev pub cmd_drain_max : ℕ
cmd_drain_max = 8

abbrev pub frame_cmd_cap : ℕ
frame_cmd_cap = 16

-- The action types of the generated header; any other number is `unknown`.
pub data ActionType : Type 0 where
  bitrate_reduce bitrate_recover scale_resolution restore_resolution cap_fps : ActionType
  unknown : ℕ → ActionType

pub record FrameCmd : Type 0 where
  pub action_type : ActionType
  pub param1 : ℤ

-- RJ_CMD_SCENE_SWITCH, RJ_CMD_BITRATE_SET, RJ_CMD_PREVIEW_FPS.
pub data CommandType : Type 0 where
  scene_switch bitrate_set preview_fps : CommandType
  unknown_cmd : ℕ → CommandType

pub record RjCommand : Type 0 where
  pub cmd_type : CommandType
  pub param_u32 : ℕ

pub record CommandRouter : Type 0 where
  pub ws_port_logged : Bool
  pub frame_cmd_buf : ℕ → FrameCmd
  pub frame_cmd_head : ℕ
  pub frame_cmd_tail : ℕ

unfoldable pub push_frame_cmd : CommandRouter → FrameCmd → CommandRouter × Bool
push_frame_cmd r cmd =
    let next = (r.frame_cmd_head + 1) % frame_cmd_cap in
    if next == r.frame_cmd_tail then (r, false) else (
      record r {
        frame_cmd_buf = update r.frame_cmd_buf r.frame_cmd_head cmd;
        frame_cmd_head = next;
      },
      true,
    )

-- What the frame thread finds in the foreign queues: the port, the count that rj_command_drain
-- returned (-1 after an exception) with the buffer, and the WebSocket commands up to the empty answer.
pub record Inbox : Type 0 where
  pub ws_port : ℕ
  pub drained : ℤ
  pub commands : ℕ → RjCommand
  pub ws_commands : List (ℕ × ℤ)

pub record Handlers {ℓ} (S : Type ℓ) : Type ℓ where
  pub apply_command : S → RjCommand → S
  pub apply_frame_cmd : S → FrameCmd → S
  pub handle_start_stop : S → ℕ → S
  pub scene_cb : Option (S → ℕ → ℕ → S)

-- static_cast<uint32_t> of an int.
abbrev pub to_u32 : ℤ → ℕ
to_u32 a = (pos_part a + 2 ^ 32 - neg_part a) % 2 ^ 32

-- A negative count is logged and read as 0; a count past the buffer is cut.
unfoldable pub clamp_count : ℤ → ℕ
clamp_count n = min (pos_part n) cmd_drain_max

module _ {ℓ} {S : Type ℓ} (h : Handlers S) where
  -- for (i = 0; i < n; ++i) apply_command(cmd_buf[i])
  pub apply_commands : ℕ → ℕ → (ℕ → RjCommand) → S → S
  apply_commands zero i buf s = s
  apply_commands (suc n) i buf s = apply_commands n (i + 1) buf (h.apply_command s (buf i))

  unfoldable pub call_scene : Option (S → ℕ → ℕ → S) → S → ℕ → ℕ → S
  call_scene none s cmd param = s
  call_scene (some f) s cmd param = f s cmd param

  unfoldable pub apply_ws : S → ℕ × ℤ → S
  unfolding call_scene
  apply_ws s (cmd, param) =
      if cmd == 1
      then h.handle_start_stop s cmd
      else if cmd == 2
      then h.handle_start_stop s cmd
      else if cmd == 3
      then call_scene h.scene_cb s cmd (to_u32 param)
      else if cmd == 4
      then call_scene h.scene_cb s cmd (to_u32 param)
      else if cmd == 5
      then call_scene h.scene_cb s cmd (to_u32 param)
      else s

  pub apply_all_ws : S → List (ℕ × ℤ) → S
  apply_all_ws s [] = s
  apply_all_ws s (c ∷ cs) = apply_all_ws (apply_ws s c) cs

  -- while (tail != head) on at most 16 rounds; the tail reached is returned with the state.
  pub drain_frame_cmds : ℕ → (ℕ → FrameCmd) → ℕ → ℕ → S → ℕ × S
  drain_frame_cmds zero buf tail head s = (tail, s)
  drain_frame_cmds (suc fuel) buf tail head s =
      let rest =
        drain_frame_cmds fuel buf ((tail + 1) % frame_cmd_cap) head
          (h.apply_frame_cmd s (buf tail)) in
      if tail == head then (tail, s) else rest

  unfoldable pub drain_and_apply : CommandRouter → Inbox → S → CommandRouter × S
  unfolding apply_commands apply_all_ws drain_frame_cmds
  drain_and_apply r inbox s =
      let logged = if r.ws_port_logged then true else if inbox.ws_port == 0 then false else true in
      let s1 = apply_commands (clamp_count inbox.drained) 0 inbox.commands s in
      let s2 = apply_all_ws s1 inbox.ws_commands in
      let d = drain_frame_cmds frame_cmd_cap r.frame_cmd_buf r.frame_cmd_tail r.frame_cmd_head s2 in
      (record r { ws_port_logged = logged; frame_cmd_tail = d.0 }, d.1)
