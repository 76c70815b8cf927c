-- ===== src/Pipeline/Bitrate/Actions.antt =====
-- Pipeline::apply_action of pipeline.cpp and the session's healing bounds.
use reji_studio.Base.{
  ◌^◌, ◌≤◌, ◌<◌, ◌≡◌, refl, ap, ◌∙◌, inl, inr, Bool-cases, ltb→lt, [], ◌∷◌, ◌++◌, arith, ltb, All,
  All-append, length,
}
use reji_studio.Base.Int.{ℤ, pos_part}
use reji_studio.Policy.Bitrate.{
  reduce_step_bitrate, recover_step_bitrate, times_0_85_bounds, times_1_15_bounds,
}
use reji_studio.Router.{ActionType, FrameCmd, CommandRouter, push_frame_cmd}
use reji_studio.Router.Queue.{IsValid, queued, queued-push_frame_cmd, push_frame_cmd-IsValid}
use reji_studio.Pipeline.State.{Impl, Config}
use reji_studio.Pipeline.Commands.{
  RjAction, apply_action, reduced_bitrate, recovered_bitrate, to_i32,
}

-- A new bitrate that the healing asks for lies between the floor and the target.
reduced_bitrate_range :
    (s : Impl) (step : ℤ)
    → s.cfg.min_bitrate_kbps ≤ s.bitrate_kbps
    → s.bitrate_kbps ≤ s.cfg.original_bitrate_kbps
    → (s.cfg.min_bitrate_kbps ≤ reduced_bitrate s step) × (reduced_bitrate s step ≤ s.bitrate_kbps)
unfolding reduced_bitrate reduce_step_bitrate
reduced_bitrate_range s step lo hi = ground (arith, times_0_85_bounds s.bitrate_kbps)

recovered_bitrate_range :
    (s : Impl) (step : ℤ)
    → s.bitrate_kbps < s.cfg.original_bitrate_kbps
    → s.cfg.original_bitrate_kbps < 2 ^ 31
    → pos_part step < 2 ^ 31
    → (s.bitrate_kbps ≤ recovered_bitrate s step)
      × (recovered_bitrate s step ≤ s.cfg.original_bitrate_kbps)
unfolding recovered_bitrate recover_step_bitrate
recovered_bitrate_range s step lt small word = ground (arith, times_1_15_bounds s.bitrate_kbps)

-- A queued change of the bitrate lies between the two bounds.
unfoldable pub InBand : Config → FrameCmd → Type 0
InBand cfg cmd = elim cmd.action_type [
  | ActionType.bitrate_reduce ↦
      (cfg.min_bitrate_kbps ≤ pos_part cmd.param1)
      × (pos_part cmd.param1 ≤ cfg.original_bitrate_kbps)
  | ActionType.bitrate_recover ↦
      (cfg.min_bitrate_kbps ≤ pos_part cmd.param1)
      × (pos_part cmd.param1 ≤ cfg.original_bitrate_kbps)
  | ActionType.scale_resolution ↦ Unit
  | ActionType.restore_resolution ↦ Unit
  | ActionType.cap_fps ↦ Unit
  | ActionType.unknown n ↦ Unit
]

-- The bitrate and every queued change of it are in the band, and the target fits an int32_t.
pub record IsHealthy (s : Impl) : Type 0 where
  pub router : IsValid s.command_router
  pub above : s.cfg.min_bitrate_kbps ≤ s.bitrate_kbps
  pub below : s.bitrate_kbps ≤ s.cfg.original_bitrate_kbps
  pub small : s.cfg.original_bitrate_kbps < 2 ^ 31
  pub queue : All (InBand s.cfg) (queued s.command_router)

push-InBand :
    (cfg : Config) (r : CommandRouter) (c : FrameCmd)
    → IsValid r
    → All (InBand cfg) (queued r)
    → InBand cfg c
    → All (InBand cfg) (queued (push_frame_cmd r c).0)
push-InBand cfg r c v q h = elim (Bool-cases (ltb (length (queued r)) 15)) [
  | inl room ↦
      let grown : queued (push_frame_cmd r c).0 ≡ queued r ++ (c ∷ []) =
        ap (λ x. x.0) (queued-push_frame_cmd r c v) ∙ rw room refl in
      rw grown (All-append (InBand cfg) (queued r) (c ∷ []) q (h, tt))
  | inr full ↦
      let same : queued (push_frame_cmd r c).0 ≡ queued r =
        ap (λ x. x.0) (queued-push_frame_cmd r c v) ∙ rw full refl in
      rw same q
]

push-IsHealthy :
    (s : Impl) (c : FrameCmd)
    → IsHealthy s
    → InBand s.cfg c
    → IsHealthy (record s { command_router = (push_frame_cmd s.command_router c).0 })
push-IsHealthy s c h b = record {
  router = push_frame_cmd-IsValid s.command_router c h.router;
  above = h.above;
  below = h.below;
  small = h.small;
  queue = push-InBand s.cfg s.command_router c h.router h.queue b;
}

reduced-InBand :
    (s : Impl) (step : ℤ)
    → IsHealthy s
    → InBand s.cfg (record {
      action_type = ActionType.bitrate_reduce;
      param1 = to_i32 (reduced_bitrate s step);
    })
unfolding InBand
reduced-InBand s step h =
    ground (arith, reduced_bitrate_range s step h.above h.below, h.above, h.below, h.small)

recovered-InBand :
    (s : Impl) (step : ℤ)
    → IsHealthy s
    → s.bitrate_kbps < s.cfg.original_bitrate_kbps
    → pos_part step < 2 ^ 31
    → InBand s.cfg (record {
      action_type = ActionType.bitrate_recover;
      param1 = to_i32 (recovered_bitrate s step);
    })
unfolding InBand
recovered-InBand s step h lt word =
    ground (arith, recovered_bitrate_range s step lt h.small word, h.above, h.below, h.small)

action-IsHealthy :
    (s : Impl) (t : ActionType) (step : ℤ)
    → IsHealthy s
    → pos_part step < 2 ^ 31
    → IsHealthy (apply_action s (record { action_type = t; param1 = step })).0
unfolding apply_action InBand
action-IsHealthy s ActionType.bitrate_reduce step h word =
    push-IsHealthy s _ h (reduced-InBand s step h)
action-IsHealthy s ActionType.bitrate_recover step h word =
    elim (Bool-cases (ltb s.bitrate_kbps s.cfg.original_bitrate_kbps)) [
      | inl below ↦
          rw below (push-IsHealthy s _ h (recovered-InBand s step h (ltb→lt _ _ below) word))
      | inr there ↦ rw there h
    ]
action-IsHealthy s ActionType.scale_resolution step h word = push-IsHealthy s _ h tt
action-IsHealthy s ActionType.restore_resolution step h word = push-IsHealthy s _ h tt
action-IsHealthy s ActionType.cap_fps step h word = push-IsHealthy s _ h tt
action-IsHealthy s (ActionType.unknown n) step h word = h

-- What the rule engine asks for is queued in the band, whatever its kind and its step.
pub apply_action-IsHealthy :
    (s : Impl) (a : RjAction)
    → IsHealthy s
    → pos_part a.param1 < 2 ^ 31
    → IsHealthy (apply_action s a).0
apply_action-IsHealthy s a h word = action-IsHealthy s a.action_type a.param1 h word
