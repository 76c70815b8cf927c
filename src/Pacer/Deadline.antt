-- ===== src/Pacer/Deadline.antt =====
-- The pacer keeps its rhythm, and gives up on time that cannot be caught up.
use native.Mathlib.Nat.{mul-div-le, le_trans, mul-le-mul_right}
use reji_studio.Base.{
  ℕ, suc, ◌+◌, ◌-◌, ◌*◌, ◌/◌, ◌≤◌, ◌<◌, ◌≡◌, ap, ◌∙◌, ◌⊎◌, List, [], ◌∷◌, arith, ltb, if◌then◌else◌,
}
use reji_studio.Base.Int.{ℤ, pos, negsuc, sub_ℕ, pos_part, ◌*ℤ◌, ◌/ℤ◌}
use reji_studio.Pacer.{FramePacer, ticks_to_us, sleep_for, pace}

-- After a call the deadline lies at most four frames behind the clock that was read: either it
-- moved on by exactly one frame, or, when even that would leave it more than four frames behind, it
-- restarts one frame after the clock. So there is never a backlog of more than four frames.
pub pace_deadline :
    (p : FramePacer) (now : ℕ) (readings : List ℕ)
    → let d = (pace p now readings).0.next_deadline in
      (now ≤ d + 4 * p.frame_ticks)
      × ((d ≡ p.next_deadline + p.frame_ticks)
            × (now ≤ p.next_deadline + p.frame_ticks + 4 * p.frame_ticks)
          ⊎ (d ≡ now + p.frame_ticks) × (p.next_deadline + p.frame_ticks + 4 * p.frame_ticks < now))
unfolding pace
pace_deadline p now readings = ground arith

-- The pacer over several frames, each with the clock read at its end.
pub pace_all : FramePacer → List ℕ → FramePacer
pace_all p [] = p
pace_all p (now ∷ later) = pace_all (pace p now []).0 later

abbrev pub frames_in : List ℕ → ℕ
frames_in [] = 0
frames_in (t ∷ ts) = suc (frames_in ts)

-- Each clock reading is at most four frames after the deadline that its frame moves on to.
abbrev pub Timely : ℕ → ℕ → List ℕ → Type 0
Timely frame_ticks d [] = Unit
Timely frame_ticks d (now ∷ later) =
    (now ≤ d + 5 * frame_ticks) × Timely frame_ticks (d + frame_ticks) later

pace_step :
    (p : FramePacer) (now : ℕ)
    → now ≤ p.next_deadline + 5 * p.frame_ticks
    → (pace p now []).0 ≡ record p { next_deadline = p.next_deadline + p.frame_ticks }
unfolding pace
pace_step p now h = ground arith

-- Without a stall of more than four frames the deadlines are exactly one frame apart: over any
-- number of frames no drift builds up, however late each single frame ends.
pub pace_no_drift :
    (p : FramePacer) (nows : List ℕ)
    → Timely p.frame_ticks p.next_deadline nows
    → (pace_all p nows).next_deadline ≡ p.next_deadline + frames_in nows * p.frame_ticks
unfolding pace_all
pace_no_drift p [] t = omega arith
pace_no_drift p (now ∷ later) t =
    ap (λ q. (pace_all q later).next_deadline) (pace_step p now t.0)
    ∙ (omega (
      arith,
      pace_no_drift (record p { next_deadline = p.next_deadline + p.frame_ticks }) later t.1,
    ))

us_le : (r : ℤ) (freq : ℕ) → pos_part (ticks_to_us r freq) * freq ≤ pos_part r * 1_000_000
unfolding ticks_to_us ◌*ℤ◌ ◌/ℤ◌
us_le (pos n) freq = ground (arith, mul-div-le (n * 1_000_000) freq)
us_le (negsuc n) freq = ground (arith)

sleep_bound : (u : ℕ) → (if ltb 1500 u then (u - 1000) / 1000 else 0) * 1000 ≤ u
sleep_bound u = ground arith

part_le :
    {n : ℕ} (u freq : ℕ)
    → u * freq ≤ n
    → (if ltb 1500 u then (u - 1000) / 1000 else 0) * 1000 * freq ≤ n
part_le u freq h = le_trans (mul-le-mul_right freq (sleep_bound u)) h

sleep_for_le : (r : ℤ) (freq : ℕ) → sleep_for r freq * 1000 * freq ≤ pos_part r * 1_000_000
unfolding sleep_for
sleep_for_le r freq = part_le (pos_part (ticks_to_us r freq)) freq (us_le r freq)

-- The milliseconds given to Sleep never exceed the time left to the deadline, so the sleep alone
-- cannot miss it.
pub pace_sleep :
    (p : FramePacer) (now : ℕ) (readings : List ℕ)
    → 0 < p.qpc_freq
    → (pace p now readings).1.sleep_ms * 1000 * p.qpc_freq
      ≤ (p.next_deadline + p.frame_ticks - now) * 1_000_000
unfolding pace
pace_sleep p now readings h =
    ground (arith, sleep_for_le (sub_ℕ (p.next_deadline + p.frame_ticks) now) p.qpc_freq)
