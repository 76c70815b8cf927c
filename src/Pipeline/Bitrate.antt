-- ===== src/Pipeline/Bitrate.antt =====
-- src/pipeline/pipeline.cpp: healing keeps the bitrate between the floor and the session's target.
pub mod Actions
use reji_studio.Base.{
  ℕ, zero, suc, ◌+◌, ◌-◌, ◌^◌, ◌%◌, ◌≤◌, ◌<◌, min, max, ◌≡◌, refl, sym, subst, ap, ◌∙◌, ◌⊎◌, inl,
  inr, Bool, true, false, ◌&&◌, Bool-cases, ltb→lt, not, Option, none, some, is_some, List, [], ◌∷◌,
  ◌++◌, arith, ltb, ◌==◌, if◌then◌else◌, All, All-append, length,
}
use reji_studio.Base.Int.{ℤ, pos_part}
use reji_studio.Policy.Bitrate.{
  reduce_step_bitrate, recover_step_bitrate, times_0_85, times_1_15, times_0_85_bounds,
  times_1_15_bounds,
}
use reji_studio.Router.{
  ActionType, CommandType, FrameCmd, RjCommand, Inbox, CommandRouter, push_frame_cmd,
  drain_and_apply, apply_ws, call_scene,
}
use reji_studio.Router.Queue.{IsValid, queued, queued-push_frame_cmd, push_frame_cmd-IsValid}
use reji_studio.Router.Order.{fold, entries, drain_and_apply_order}
use reji_studio.Pipeline.State.{Impl, Config}
use reji_studio.Pipeline.Commands.{
  RjAction, apply_action, apply_frame_cmd, apply_command, handlers, start_stream, stop_stream,
  handle_start_stop, invoke_scene_cmd, reduced_bitrate, recovered_bitrate, to_i32,
}
use reji_studio.Pipeline.Frame.{drain_commands}
use reji_studio.Pipeline.Bitrate.Actions.{InBand, IsHealthy, apply_action-IsHealthy}

pub ruleset step_bounds = (arith, times_0_85_bounds, times_1_15_bounds)

-- A state of the same session: what the drain of commands leaves alone, with the bitrate in the band.
record Kept (c : Config) (r : CommandRouter) (s : Impl) : Type 0 where
  same : s.cfg ≡ c
  router : s.command_router ≡ r
  above : c.min_bitrate_kbps ≤ s.bitrate_kbps
  below : s.bitrate_kbps ≤ c.original_bitrate_kbps

fold-Kept :
    {A : Type 0} {Q : A → Type 0} (cfg : Config) (r : CommandRouter) (f : Impl → A → Impl)
    (keeps : (s : Impl) (x : A) → Q x → Kept cfg r s → Kept cfg r (f s x)) (xs : List A) (s : Impl)
    → All Q xs
    → Kept cfg r s
    → Kept cfg r (fold f s xs)
unfolding fold
fold-Kept cfg r f keeps [] s q k = k
fold-Kept cfg r f keeps (x ∷ xs) s q k = fold-Kept cfg r f keeps xs (f s x) q.1 (keeps s x q.0 k)

frame_cmd-Kept :
    (cfg : Config) (r : CommandRouter) (s : Impl) (c : FrameCmd)
    → InBand cfg c
    → cfg.original_bitrate_kbps < 2 ^ 31
    → Kept cfg r s
    → Kept cfg r (apply_frame_cmd s c)
unfolding apply_frame_cmd InBand
frame_cmd-Kept cfg r s c b small k = record {
  same = ground (arith, k.same);
  router = ground (arith, k.router);
  above = ground (arith, k.above);
  below = ground (arith, k.below);
}

ws-Kept :
    (cfg : Config) (r : CommandRouter) (s : Impl) (c : ℕ × ℤ)
    → Kept cfg r s
    → Kept cfg r (apply_ws handlers s c)
unfolding apply_ws call_scene handle_start_stop start_stream stop_stream invoke_scene_cmd
ws-Kept cfg r s c k = record {
  same = ground (arith, k.same);
  router = ground (arith, k.router);
  above = ground (arith, k.above);
  below = ground (arith, k.below);
}

-- An external command sets no bitrate outside the band; 0 is ignored by the code.
unfoldable pub CommandInBand : Config → RjCommand → Type 0
CommandInBand cfg c = elim c.cmd_type [
  | CommandType.bitrate_set ↦
      (c.param_u32 ≡ 0)
      ⊎ (cfg.min_bitrate_kbps ≤ c.param_u32) × (c.param_u32 ≤ cfg.original_bitrate_kbps)
  | CommandType.scene_switch ↦ Unit
  | CommandType.preview_fps ↦ Unit
  | CommandType.unknown_cmd n ↦ Unit
]

command-Kept :
    (cfg : Config) (r : CommandRouter) (s : Impl) (c : RjCommand)
    → CommandInBand cfg c
    → Kept cfg r s
    → Kept cfg r (apply_command s c)
unfolding apply_command CommandInBand
command-Kept cfg r s c b k = record {
  same = ground (arith, k.same);
  router = ground (arith, k.router);
  above = ground (arith, k.above);
  below = ground (arith, k.below);
}

All-true : {A : Type 0} (xs : List A) → All (λ _. Unit {0}) xs
All-true [] = tt
All-true (x ∷ xs) = (tt, All-true xs)

-- The commands that a drain applies.
abbrev pub drained_commands : Inbox → List RjCommand
drained_commands inbox = entries (min (pos_part inbox.drained) 8) 0 inbox.commands

-- What a drain leaves of the session: the bounds and the ring that it started from.
drain-Kept :
    (s : Impl) (inbox : Inbox)
    → IsHealthy s
    → All (CommandInBand s.cfg) (drained_commands inbox)
    → Kept s.cfg s.command_router (drain_and_apply handlers s.command_router inbox s).1
drain-Kept s inbox h safe =
    let r = s.command_router in
    let start : Kept s.cfg r s = record {
      same = refl;
      router = refl;
      above = h.above;
      below = h.below;
    } in
    let one =
      fold-Kept s.cfg r apply_command (command-Kept s.cfg r) (drained_commands inbox) s safe
        start in
    let two =
      fold-Kept s.cfg r (apply_ws handlers) (λ t c _ k. ws-Kept s.cfg r t c k) inbox.ws_commands _
        (All-true inbox.ws_commands) one in
    let three =
      fold-Kept s.cfg r apply_frame_cmd (λ t c b k. frame_cmd-Kept s.cfg r t c b h.small k)
        (queued r) _ h.queue two in
    subst (Kept s.cfg r) (sym (drain_and_apply_order handlers r inbox s h.router).0) three

-- A drain of everything that waits keeps the bitrate in the band, if no external command sets it
-- outside, and leaves no queued change.
pub drain_commands-IsHealthy :
    (s : Impl) (inbox : Inbox)
    → IsHealthy s
    → All (CommandInBand s.cfg) (drained_commands inbox)
    → IsHealthy (drain_commands s inbox) × ((drain_commands s inbox).cfg ≡ s.cfg)
unfolding drain_commands
drain_commands-IsHealthy s inbox h safe =
    let order = drain_and_apply_order handlers s.command_router inbox s h.router in
    let kept = drain-Kept s inbox h safe in
    (
      record {
        router = order.2;
        above = rw kept.same kept.above;
        below = rw kept.same kept.below;
        small = rw kept.same h.small;
        queue = rw order.1 tt;
      },
      kept.same,
    )

-- What touches the bitrate, in the order in which it happens: an action on the rule engine's
-- thread, or a drain on the frame thread.
pub data Heal : Type 0 where
  action : RjAction → Heal
  drained : Inbox → Heal

unfoldable pub heal : Impl → Heal → Impl
heal s (action a) = (apply_action s a).0
heal s (drained inbox) = drain_commands s inbox

unfoldable pub heal_all : Impl → List Heal → Impl
heal_all s [] = s
heal_all s (e ∷ es) = heal_all (heal s e) es

-- An action's step is an int32_t; a drain brings no external bitrate outside the band.
unfoldable pub IsAllowed : Config → Heal → Type 0
IsAllowed cfg (action a) = pos_part a.param1 < 2 ^ 31
IsAllowed cfg (drained inbox) = All (CommandInBand cfg) (drained_commands inbox)

apply_action-cfg : (s : Impl) (a : RjAction) → (apply_action s a).0.cfg ≡ s.cfg
unfolding apply_action
apply_action-cfg s a = ground arith

heal-IsHealthy :
    (s : Impl) (e : Heal)
    → IsHealthy s
    → IsAllowed s.cfg e
    → IsHealthy (heal s e) × ((heal s e).cfg ≡ s.cfg)
unfolding heal IsAllowed
heal-IsHealthy s (action a) h ok = (apply_action-IsHealthy s a h ok, apply_action-cfg s a)
heal-IsHealthy s (drained inbox) h ok = drain_commands-IsHealthy s inbox h ok

-- However the rule engine's actions and the frame thread's drains alternate, and however stale the
-- queued changes are when they are applied, the bitrate never leaves the band between the floor
-- and the session's target, if no external command sets it outside.
pub healing_stays_in_band :
    (s : Impl) (es : List Heal)
    → IsHealthy s
    → All (IsAllowed s.cfg) es
    → (s.cfg.min_bitrate_kbps ≤ (heal_all s es).bitrate_kbps)
      × ((heal_all s es).bitrate_kbps ≤ s.cfg.original_bitrate_kbps)
unfolding heal_all
healing_stays_in_band s [] h ok = (h.above, h.below)
healing_stays_in_band s (e ∷ es) h ok =
    let one = heal-IsHealthy s e h ok.0 in
    let rest =
      healing_stays_in_band (heal s e) es one.0
        (subst (λ c. All (IsAllowed c) es) (sym one.1) ok.1) in
    (
      subst (λ c. c.min_bitrate_kbps ≤ (heal_all (heal s e) es).bitrate_kbps) one.1 rest.0,
      subst (λ c. (heal_all (heal s e) es).bitrate_kbps ≤ c.original_bitrate_kbps) one.1 rest.1,
    )
