-- ===== src/Dxgi/Spin.antt =====
-- The bounded wait for the copy on AMD in DxgiCapturePipeline::capture_next of capture_dxgi.cpp.
use reji_studio.Base.{
  ℕ, zero, suc, ◌+◌, ◌^◌, ◌≤◌, ◌<◌, ◌≡◌, Bool, true, ◌&&◌, ltb, leb, if◌then◌else◌, sub_u64, subst,
  arith,
}
use native.Mathlib.Decide.{dec_lt}
use reji_studio.Dxgi.{Hr, s_ok, s_other, hr_failed, is_ok}

-- One GetData: its answer and `done`; and the tick count if it is read after it.
pub record FencePoll : Type 0 where
  pub gd : Hr
  pub is_done : Bool
  pub tick : ℕ

pub data SpinEnd : Type 0 where
  copy_done : SpinEnd
  fence_lost : SpinEnd
  spin_timeout : SpinEnd
  spinning : SpinEnd

-- What one answer of GetData makes of the wait, given what the rounds after it make of it.
unfoldable pub after_poll : ℕ → ℕ → FencePoll → Hr → SpinEnd → SpinEnd
after_poll iter start p hr_failed later = fence_lost
after_poll iter start p gd later =
    if is_ok gd && p.is_done
    then copy_done
    else if ltb iter 4096
    then later
    else if leb 100 (sub_u64 p.tick start)
    then spin_timeout
    else later

-- for (;;), for at most `rounds` more rounds; the round of a number makes the poll of that number.
unfoldable pub spin_loop : ℕ → ℕ → ℕ → (ℕ → FencePoll) → SpinEnd
unfolding after_poll
spin_loop zero iter start polls = spinning
spin_loop (suc rounds) iter start polls =
    after_poll iter start (polls iter) (polls iter).gd (spin_loop rounds (iter + 1) start polls)

abbrev pub Ended : SpinEnd → Type 0
Ended spinning = ⊥
Ended _ = Unit

-- A tick count is a ULONGLONG, and 100 ms have passed since `start`.
abbrev pub IsLate : ℕ → ℕ → Type 0
IsLate start tick = (start + 100 ≤ tick) × (tick < 2 ^ 64)

late_test : (start tick : ℕ) → IsLate start tick → leb 100 (sub_u64 tick start) ≡ true
late_test start tick h = ground arith

after_poll-Ended :
    (iter start : ℕ) (p : FencePoll) (gd : Hr) (later : SpinEnd)
    → Ended later
    → Ended (after_poll iter start p gd later)
unfolding after_poll
after_poll-Ended iter start p s_ok later h = ground arith
after_poll-Ended iter start p s_other later h = ground arith
after_poll-Ended iter start p hr_failed later h = tt

after_poll-late :
    (iter start : ℕ) (p : FencePoll) (gd : Hr) (later : SpinEnd)
    → 4096 ≤ iter
    → IsLate start p.tick
    → Ended (after_poll iter start p gd later)
unfolding after_poll
after_poll-late iter start p s_ok later h late = ground (arith, late_test start p.tick late)
after_poll-late iter start p s_other later h late = ground (arith, late_test start p.tick late)
after_poll-late iter start p hr_failed later h late = tt

pub spin_loop-Ended :
    (rounds iter start : ℕ) (polls : ℕ → FencePoll) (n : ℕ)
    → iter ≤ n
    → n < iter + rounds
    → 4096 ≤ n
    → IsLate start (polls n).tick
    → Ended (spin_loop rounds iter start polls)
unfolding spin_loop
spin_loop-Ended zero iter start polls n h k busy late = absurd (omega arith)
spin_loop-Ended (suc rounds) iter start polls n h k busy late = elim (dec_lt iter n) [
  | yes below ↦
      after_poll-Ended iter start (polls iter) (polls iter).gd _
        (spin_loop-Ended rounds (iter + 1) start polls n (omega arith) (omega arith) busy late)
  | no above ↦
      after_poll-late iter start (polls iter) (polls iter).gd _ (omega arith)
        (subst (λ i. IsLate start (polls i).tick) (omega arith) late)
]
