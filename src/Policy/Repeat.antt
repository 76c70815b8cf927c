-- ===== src/Policy/Repeat.antt =====
-- src/pipeline/include/frame_repeat_policy.h: repeating a frame on an empty tick, and the fallback
-- IDR request when key frames stay away.
use reji_studio.Base.{
  ℕ, ◌+◌, ◌≤◌, ◌≡◌, refl, Bool, true, false, ◌&&◌, ◌||◌, not, List, [], ◌∷◌, arith, if◌then◌else◌,
}
use reji_studio.Base.Int.{ℤ, pos, ◌-ℤ◌, ltb_ℤ, leb_ℤ}

unfoldable pub should_repeat_frame : Bool → Bool → Bool
should_repeat_frame have_copy is_null_tick = have_copy && is_null_tick

abbrev pub default_idr_interval_us : ℤ
default_idr_interval_us = pos 3_000_000

pub record IdrCadence : Type 0 where
  pub interval_us : ℤ
  pub last_keyframe_pts_us : ℤ
  pub have_epoch : Bool
  pub pending : Bool

abbrev pub initial_cadence : IdrCadence
initial_cadence = record {
  interval_us = default_idr_interval_us;
  last_keyframe_pts_us = pos 0;
  have_epoch = false;
  pending = false;
}

unfoldable pub on_keyframe : IdrCadence → ℤ → IdrCadence
on_keyframe c pts_us = record c {
  last_keyframe_pts_us = pts_us;
  have_epoch = true;
  pending = false;
}

unfoldable pub should_force_idr : IdrCadence → ℤ → IdrCadence × Bool
should_force_idr c now_pts_us =
    if not c.have_epoch || c.pending
    then (c, false)
    else if ltb_ℤ (now_pts_us -ℤ c.last_keyframe_pts_us) c.interval_us
    then (c, false)
    else (record c { pending = true }, true)

-- What the frame thread does to the cadence: an observed key frame, or a tick that asks.
pub data CadenceEvent : Type 0 where
  keyframe : ℤ → CadenceEvent
  tick : ℤ → CadenceEvent

unfoldable pub cadence_step : IdrCadence → CadenceEvent → IdrCadence × Bool
cadence_step c (keyframe pts) = (on_keyframe c pts, false)
cadence_step c (tick now) = should_force_idr c now

-- How many fallback requests a run of events makes.
unfoldable pub forced : IdrCadence → List CadenceEvent → ℕ
forced c [] = 0
forced c (e ∷ rest) = let r = cadence_step c e in (if r.1 then 1 else 0) + forced r.0 rest

abbrev pub keyframes : List CadenceEvent → ℕ
keyframes [] = 0
keyframes (keyframe pts ∷ rest) = 1 + keyframes rest
keyframes (tick now ∷ rest) = keyframes rest

-- Whether the cadence may still ask before the next key frame.
abbrev pub credit : IdrCadence → ℕ
credit c = if c.have_epoch && not c.pending then 1 else 0

forced-le-credit : (c : IdrCadence) (es : List CadenceEvent) → forced c es ≤ keyframes es + credit c
unfolding forced cadence_step on_keyframe should_force_idr
forced-le-credit c [] = omega arith
forced-le-credit c (keyframe pts ∷ rest) = ground (arith, forced-le-credit (on_keyframe c pts) rest)
forced-le-credit c (tick now ∷ rest) =
    ground (arith, forced-le-credit c rest, forced-le-credit (record c { pending = true }) rest)

-- From the start of a session, whatever the order of key frames and ticks, there are never more
-- fallback IDR requests than key frames seen: no request without a key frame behind it, and at
-- most one for each.
pub forced-le-keyframes : (es : List CadenceEvent) → forced initial_cadence es ≤ keyframes es
forced-le-keyframes es = omega (arith, forced-le-credit initial_cadence es)

abbrev pub ticks : List ℤ → List CadenceEvent
ticks [] = []
ticks (now ∷ rest) = tick now ∷ ticks rest

-- Some tick lies a whole interval or more after the key frame at `pts`.
abbrev pub any_late : ℤ → ℤ → List ℤ → Bool
any_late interval pts [] = false
any_late interval pts (now ∷ rest) = leb_ℤ interval (now -ℤ pts) || any_late interval pts rest

forced_pending : (c : IdrCadence) (ts : List ℤ) → c.pending ≡ true → forced c (ticks ts) ≡ 0
unfolding forced cadence_step should_force_idr
forced_pending c [] h = refl
forced_pending c (now ∷ rest) h = ground (arith, forced_pending c rest h)

forced-armed :
    (c : IdrCadence) (ts : List ℤ)
    → c.pending ≡ false
    → c.have_epoch ≡ true
    → forced c (ticks ts) ≡ (if any_late c.interval_us c.last_keyframe_pts_us ts then 1 else 0)
unfolding forced cadence_step should_force_idr
forced-armed c [] p e = refl
forced-armed c (now ∷ rest) p e =
    ground (arith, forced-armed c rest p e, forced_pending (record c { pending = true }) rest refl)

-- After a key frame, the ticks up to the next one request exactly one IDR if some tick comes a
-- whole interval or more later, and none otherwise.
pub forced_after_keyframe :
    (c : IdrCadence) (pts : ℤ) (ts : List ℤ)
    → forced (on_keyframe c pts) (ticks ts) ≡ (if any_late c.interval_us pts ts then 1 else 0)
unfolding on_keyframe
forced_after_keyframe c pts ts = forced-armed (on_keyframe c pts) ts refl refl
