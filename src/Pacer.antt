-- ===== src/Pacer.antt =====
-- src/pipeline/include/frame_pacer.h and frame_pacer.cpp: frame times and the absolute deadline.
-- Each reading of the performance counter is an argument, in ticks.
pub mod Deadline
use reji_studio.Base.{
  ℕ, ◌+◌, ◌-◌, ◌*◌, ◌/◌, ◌≤◌, Bool, true, false, Option, none, some, List, [], ◌∷◌, leb, ltb, ◌==◌,
  if◌then◌else◌,
}
use reji_studio.Base.Int.{ℤ, pos, pos_part, neg_part, sub_ℕ, ◌-ℤ◌, ◌+ℤ◌, ◌*ℤ◌, ◌/ℤ◌, ltb_ℤ}

abbrev pub resync_frames : ℕ
resync_frames = 4

pub record FramePacer : Type 0 where
  pub qpc_freq : ℕ
  pub frame_ticks : ℕ
  pub next_deadline : ℕ
  pub pts_origin : ℕ

abbrev pub new_pacer : FramePacer
new_pacer = record { qpc_freq = 1; frame_ticks = 0; next_deadline = 0; pts_origin = 0 }

unfoldable pub ticks_to_us : ℤ → ℕ → ℤ
ticks_to_us t freq = (t *ℤ 1_000_000) /ℤ freq

-- The frequency query fails or answers; the two readings are for the origin and the first deadline.
unfoldable pub init : FramePacer → ℕ → Option ℕ → ℕ → ℕ → FramePacer × Bool
init p fps none t0 t1 = (p, false)
init p fps (some freq) t0 t1 = if fps == 0 then (p, false) else if freq == 0 then (p, false) else (
  record {
    qpc_freq = freq;
    frame_ticks = freq / fps;
    next_deadline = t1 + freq / fps;
    pts_origin = t0;
  },
  true,
)

unfoldable pub pts_us : FramePacer → ℕ → ℤ
unfolding ticks_to_us
pts_us p frame_start_ticks = ticks_to_us (sub_ℕ frame_start_ticks p.pts_origin) p.qpc_freq

unfoldable pub origin_us : FramePacer → ℤ
origin_us p = if ltb 0 p.qpc_freq then pos (p.pts_origin * 1_000_000 / p.qpc_freq) else pos 0

-- while (qpc_ticks() < deadline) over the readings to come: how many passes, and the readings left.
pub spin : ℕ → List ℕ → ℕ × List ℕ
spin deadline [] = (0, [])
spin deadline (t ∷ later) =
    let rest = spin deadline later in if ltb t deadline then (rest.0 + 1, rest.1) else (0, later)

-- What a call of `pace` does: the milliseconds asked of Sleep, and the passes of the busy wait.
pub record Pause : Type 0 where
  pub sleep_ms : ℕ
  pub spins : ℕ

abbrev pub no_pause : Pause
no_pause = record { sleep_ms = 0; spins = 0 }

-- The sleep before a deadline that lies `remain` ticks ahead.
unfoldable pub sleep_for : ℤ → ℕ → ℕ
unfolding ticks_to_us
sleep_for remain freq =
    let remain_us = pos_part (ticks_to_us remain freq) in
    if ltb 1500 remain_us then (remain_us - 1000) / 1000 else 0

unfoldable pub pace : FramePacer → ℕ → List ℕ → FramePacer × Pause
unfolding spin sleep_for
pace p now readings =
    let deadline = p.next_deadline + p.frame_ticks in
    let remain = sub_ℕ deadline now in
    if ltb_ℤ remain (sub_ℕ 0 (p.frame_ticks * resync_frames))
    then (record p { next_deadline = now + p.frame_ticks }, no_pause)
    else if ltb_ℤ (pos 0) remain
    then (
      record p { next_deadline = deadline },
      record { sleep_ms = sleep_for remain p.qpc_freq; spins = (spin deadline readings).0 },
    )
    else (record p { next_deadline = deadline }, no_pause)
