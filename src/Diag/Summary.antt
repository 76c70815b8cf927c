-- ===== src/Diag/Summary.antt =====
-- What a flush reports is the plain summary of the samples recorded since the window began.
pub mod Meters
use reji_studio.Base.{
  ℕ, suc, ◌+◌, ◌-◌, ◌*◌, ◌/◌, ◌^◌, ◌≤◌, ◌<◌, ◌≡◌, refl, ap, ◌∙◌, Bool, true, false, Option, none,
  some, List, [], ◌∷◌, arith, ltb, ◌==◌, if◌then◌else◌, length, sum, maximum, All, add_u32, sub_u64,
}
use reji_studio.Diag.{
  Acc, empty_acc, add, avg, SendDiag, SendDiagStats, fresh_window, Sample, record_sample, stats_of,
  maybe_flush, window_us,
}
use reji_studio.Diag.Summary.Meters.{
  Meter, Tally, meter, tally, record_all, times, number, acc_of, Words, sum-le, meter_lem,
  tally_lem,
}

-- The mean, cut to a whole number; 0 of no times.
abbrev pub mean : List ℕ → ℕ
mean ts = if length ts == 0 then 0 else sum ts / length ts

quotient-lt : (n k : ℕ) → n ≤ (2 ^ 32 - 1) * k → 0 < k → n / k < 2 ^ 32
quotient-lt n k h p = grind arith

avg-mean : (ts : List ℕ) → Words ts → avg (acc_of ts) ≡ mean ts
unfolding avg
avg-mean [] h = refl
avg-mean (t ∷ ts) h =
    ground (arith, quotient-lt (sum (t ∷ ts)) (length (t ∷ ts)) (sum-le (t ∷ ts) h) (omega arith))

-- The statistics by their meaning.
abbrev pub summary : List Sample → SendDiagStats
summary ss = record {
  cap_avg_us = mean (times Meter.cap ss);
  cap_max_us = maximum (times Meter.cap ss);
  capn_avg_us = mean (times Meter.capn ss);
  capn_max_us = maximum (times Meter.capn ss);
  enc_avg_us = mean (times Meter.enc ss);
  enc_max_us = maximum (times Meter.enc ss);
  encp_avg_us = mean (times Meter.encp ss);
  encp_max_us = maximum (times Meter.encp ss);
  lock_avg_us = mean (times Meter.lock ss);
  lock_max_us = maximum (times Meter.lock ss);
  ecb_avg_us = mean (times Meter.ecb ss);
  ecb_max_us = maximum (times Meter.ecb ss);
  d3d_avg_us = mean (times Meter.d3d ss);
  d3d_max_us = maximum (times Meter.d3d ss);
  prev_avg_us = mean (times Meter.prev ss);
  prev_max_us = maximum (times Meter.prev ss);
  tot_avg_us = mean (times Meter.tot ss);
  tot_max_us = maximum (times Meter.tot ss);
  pace_avg_us = mean (times Meter.pace ss);
  pace_max_us = maximum (times Meter.pace ss);
  sendv_avg_us = mean (times Meter.sendv ss);
  sendv_max_us = maximum (times Meter.sendv ss);
  senda_avg_us = mean (times Meter.senda ss);
  senda_max_us = maximum (times Meter.senda ss);
  copy_avg_us = mean (times Meter.copy ss);
  copy_max_us = maximum (times Meter.copy ss);
  n_frames = number Tally.frames ss;
  n_null = number Tally.nulls ss;
  n_dup = number Tally.dups ss;
  n_idr_fallback = number Tally.idrs ss;
  n_prev_miss = number Tally.misses ss;
  n_sendv_ok = number Tally.sent ss;
  n_sendv_fail = number Tally.failed ss;
  n_senda = length (times Meter.senda ss);
}

stats_of-summary :
    (w : ℕ) (ss : List Sample)
    → ((m : Meter) → Words (times m ss))
    → length ss < 2 ^ 32
    → stats_of (record_all (fresh_window w) ss) ≡ summary ss
unfolding stats_of
stats_of-summary w ss words l = λ i. record {
  cap_avg_us = a Meter.cap i;
  cap_max_us = (p Meter.cap i).max_us;
  capn_avg_us = a Meter.capn i;
  capn_max_us = (p Meter.capn i).max_us;
  enc_avg_us = a Meter.enc i;
  enc_max_us = (p Meter.enc i).max_us;
  encp_avg_us = a Meter.encp i;
  encp_max_us = (p Meter.encp i).max_us;
  lock_avg_us = a Meter.lock i;
  lock_max_us = (p Meter.lock i).max_us;
  ecb_avg_us = a Meter.ecb i;
  ecb_max_us = (p Meter.ecb i).max_us;
  d3d_avg_us = a Meter.d3d i;
  d3d_max_us = (p Meter.d3d i).max_us;
  prev_avg_us = a Meter.prev i;
  prev_max_us = (p Meter.prev i).max_us;
  tot_avg_us = a Meter.tot i;
  tot_max_us = (p Meter.tot i).max_us;
  pace_avg_us = a Meter.pace i;
  pace_max_us = (p Meter.pace i).max_us;
  sendv_avg_us = a Meter.sendv i;
  sendv_max_us = (p Meter.sendv i).max_us;
  senda_avg_us = a Meter.senda i;
  senda_max_us = (p Meter.senda i).max_us;
  copy_avg_us = a Meter.copy i;
  copy_max_us = (p Meter.copy i).max_us;
  n_frames = q Tally.frames i;
  n_null = q Tally.nulls i;
  n_dup = q Tally.dups i;
  n_idr_fallback = q Tally.idrs i;
  n_prev_miss = q Tally.misses i;
  n_sendv_ok = q Tally.sent i;
  n_sendv_fail = q Tally.failed i;
  n_senda = (p Meter.senda i).count;
}
  where
    d : SendDiag
    d = record_all (fresh_window w) ss

    p : (m : Meter) → meter m d ≡ acc_of (times m ss)
    p m = meter_lem m w ss (words m) l

    a : (m : Meter) → avg (meter m d) ≡ mean (times m ss)
    a m = ap avg (p m) ∙ avg-mean (times m ss) (words m)

    q : (t : Tally) → tally t d ≡ number t ss
    q t = tally_lem t w ss l

start_kept : (w : ℕ) (ss : List Sample) → (record_all (fresh_window w) ss).window_start_us ≡ w
unfolding record_sample
start_kept w [] = refl
start_kept w (s ∷ older) = ground (arith, start_kept w older)

-- A window of fewer than 2 ^ 32 samples of 32-bit times: before a second has passed nothing is
-- reported and nothing changes; from then on the report holds for each phase the mean and maximum
-- of exactly the times recorded since the window began, and the true counts, and the next window
-- begins empty.
pub maybe_flush-summary :
    (w now : ℕ) (ss : List Sample)
    → ((m : Meter) → Words (times m ss))
    → length ss < 2 ^ 32
    → w ≤ now
    → now < 2 ^ 64
    → maybe_flush (record_all (fresh_window w) ss) now ≡ (
        if ltb (now - w) window_us
        then (record_all (fresh_window w) ss, none)
        else (fresh_window now, some (summary ss)))
unfolding maybe_flush
maybe_flush-summary w now ss words l le word =
    rw (start_kept w ss, stats_of-summary w ss words l, elapsed) refl
  where
    elapsed : sub_u64 now w ≡ now - w
    elapsed = omega arith
