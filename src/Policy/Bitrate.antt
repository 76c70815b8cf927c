-- ===== src/Policy/Bitrate.antt =====
-- src/pipeline/include/bitrate_policy.h: how far one healing action moves the bitrate.
use reji_studio.Base.{
  ℕ, ◌+◌, ◌-◌, ◌*◌, ◌/◌, ◌≤◌, ◌<◌, ◌^◌, min, ◌≡◌, ◌⊎◌, arith, ltb, if◌then◌else◌, add_u32,
}
use reji_studio.Base.Int.{ℤ, pos, pos_part, ltb_ℤ, ◌≤ℤ◌}
use reji_studio.Base.Single.{round_single, round_single_bounds}

unfoldable pub reduce_floor_for_target : ℕ → ℕ → ℕ
reduce_floor_for_target configured_floor target_kbps = min configured_floor target_kbps

-- `current * 0.85f`: the constant is 14260634 / 2 ^ 24, and conversion and product are rounded.
pub times_0_85 : ℕ → ℕ
times_0_85 c = round_single (round_single c * 14260634) / 2 ^ 24

-- `current * 1.15f`: the constant is 9646899 / 2 ^ 23.
pub times_1_15 : ℕ → ℕ
times_1_15 c = round_single (round_single c * 9646899) / 2 ^ 23

unfoldable pub reduce_step_bitrate : ℕ → ℤ → ℕ
reduce_step_bitrate current_kbps step_kbps =
    if ltb_ℤ (pos 0) step_kbps
    then (if ltb (pos_part step_kbps) current_kbps then current_kbps - pos_part step_kbps else 0)
    else times_0_85 current_kbps

unfoldable pub recover_step_bitrate : ℕ → ℤ → ℕ
recover_step_bitrate current_kbps step_kbps =
    if ltb_ℤ (pos 0) step_kbps
    then add_u32 current_kbps (pos_part step_kbps)
    else times_1_15 current_kbps

pub times_0_85_bounds :
    (c : ℕ) → (100 * times_0_85 c ≤ 86 * c) × (84 * c ≤ 100 * (times_0_85 c + 1))
unfolding times_0_85
times_0_85_bounds c =
    omega (arith, round_single_bounds c, round_single_bounds (round_single c * 14260634))

pub times_1_15_bounds :
    (c : ℕ) → (100 * times_1_15 c ≤ 116 * c) × (114 * c ≤ 100 * (times_1_15 c + 1))
unfolding times_1_15
times_1_15_bounds c =
    omega (arith, round_single_bounds c, round_single_bounds (round_single c * 9646899))

-- A reduction always lowers a bitrate that is not yet 0: by a positive step (to 0 if the step is
-- larger), and without one to between 84 and 86 parts of 100, less one kbps for the cut fraction.
pub reduce_step_bitrate_lowers :
    (c : ℕ) (step : ℤ)
    → 0 < c
    → (reduce_step_bitrate c step < c)
      × ((0 < pos_part step) × (reduce_step_bitrate c step ≡ c - pos_part step)
          ⊎ (step ≤ℤ pos 0)
            × (100 * reduce_step_bitrate c step ≤ 86 * c)
            × (84 * c ≤ 100 * (reduce_step_bitrate c step + 1)))
unfolding reduce_step_bitrate
reduce_step_bitrate_lowers c step h = ground (arith, times_0_85_bounds c)

-- A recovery raises every bitrate from 8 kbps on, if the sum with the step fits 32 bits: by a
-- positive step exactly, and without one to between 114 and 116 parts of 100, less one kbps.
pub recover_step_bitrate_raises :
    (c : ℕ) (step : ℤ)
    → 8 ≤ c
    → c + pos_part step < 2 ^ 32
    → (c < recover_step_bitrate c step)
      × ((0 < pos_part step) × (recover_step_bitrate c step ≡ c + pos_part step)
          ⊎ (step ≤ℤ pos 0)
            × (100 * recover_step_bitrate c step ≤ 116 * c)
            × (114 * c ≤ 100 * (recover_step_bitrate c step + 1)))
unfolding recover_step_bitrate
recover_step_bitrate_raises c step h fits = ground (arith, times_1_15_bounds c)
