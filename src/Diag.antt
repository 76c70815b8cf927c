-- ===== src/Diag.antt =====
-- src/pipeline/include/send_diag.h: the one-second statistics of the frame thread. Times are
-- uint32_t microseconds, sums uint64_t, counts uint32_t. The printed line is left out: it is text.
pub mod Summary
use reji_studio.Base.{
  ℕ, ◌/◌, ◌%◌, ◌^◌, Bool, true, false, Option, none, some, ltb, ◌==◌, if◌then◌else◌, add_u32,
  add_u64, sub_u64,
}

abbrev pub window_us : ℕ
window_us = 1_000_000

pub record Acc : Type 0 where
  pub sum_us : ℕ
  pub max_us : ℕ
  pub count : ℕ

abbrev pub empty_acc : Acc
empty_acc = record { sum_us = 0; max_us = 0; count = 0 }

unfoldable pub add : Acc → ℕ → Acc
add a us = record {
  sum_us = add_u64 a.sum_us us;
  max_us = if ltb a.max_us us then us else a.max_us;
  count = add_u32 a.count 1;
}

unfoldable pub avg : Acc → ℕ
avg a = if a.count == 0 then 0 else (a.sum_us / a.count) % 2 ^ 32

pub record SendDiagStats : Type 0 where
  pub cap_avg_us : ℕ
  pub cap_max_us : ℕ
  pub capn_avg_us : ℕ
  pub capn_max_us : ℕ
  pub enc_avg_us : ℕ
  pub enc_max_us : ℕ
  pub encp_avg_us : ℕ
  pub encp_max_us : ℕ
  pub lock_avg_us : ℕ
  pub lock_max_us : ℕ
  pub ecb_avg_us : ℕ
  pub ecb_max_us : ℕ
  pub d3d_avg_us : ℕ
  pub d3d_max_us : ℕ
  pub prev_avg_us : ℕ
  pub prev_max_us : ℕ
  pub tot_avg_us : ℕ
  pub tot_max_us : ℕ
  pub pace_avg_us : ℕ
  pub pace_max_us : ℕ
  pub sendv_avg_us : ℕ
  pub sendv_max_us : ℕ
  pub senda_avg_us : ℕ
  pub senda_max_us : ℕ
  pub copy_avg_us : ℕ
  pub copy_max_us : ℕ
  pub n_frames : ℕ
  pub n_null : ℕ
  pub n_dup : ℕ
  pub n_idr_fallback : ℕ
  pub n_prev_miss : ℕ
  pub n_sendv_ok : ℕ
  pub n_sendv_fail : ℕ
  pub n_senda : ℕ

pub record SendDiag : Type 0 where
  pub window_start_us : ℕ
  pub cap : Acc
  pub capn : Acc
  pub enc : Acc
  pub sendv : Acc
  pub senda : Acc
  pub d3d : Acc
  pub prev : Acc
  pub tot : Acc
  pub pace : Acc
  pub copy : Acc
  pub encp : Acc
  pub lock : Acc
  pub ecb : Acc
  pub n_frames : ℕ
  pub n_null : ℕ
  pub n_prev_miss : ℕ
  pub n_sendv_ok : ℕ
  pub n_sendv_fail : ℕ
  pub n_dup : ℕ
  pub n_idr_fallback : ℕ

-- `reset`: every accumulator and counter at zero, the window at `now_us`.
abbrev pub fresh_window : ℕ → SendDiag
fresh_window now_us = record {
  window_start_us = now_us;
  cap = empty_acc;
  capn = empty_acc;
  enc = empty_acc;
  sendv = empty_acc;
  senda = empty_acc;
  d3d = empty_acc;
  prev = empty_acc;
  tot = empty_acc;
  pace = empty_acc;
  copy = empty_acc;
  encp = empty_acc;
  lock = empty_acc;
  ecb = empty_acc;
  n_frames = 0;
  n_null = 0;
  n_prev_miss = 0;
  n_sendv_ok = 0;
  n_sendv_fail = 0;
  n_dup = 0;
  n_idr_fallback = 0;
}

unfoldable pub begin_window : SendDiag → ℕ → SendDiag
begin_window d now_us = record d { window_start_us = now_us }

-- The calls that the frame thread makes between two flushes.
pub data Sample : Type 0 where
  capture : ℕ → Bool → Sample
  encode : ℕ → Sample
  enc_split : ℕ → ℕ → ℕ → Sample
  preview_miss : Sample
  interop : ℕ → Sample
  preview : ℕ → Sample
  total : ℕ → Sample
  paced : ℕ → Sample
  send_video : ℕ → Bool → Sample
  audio_drain : ℕ → Sample
  repeat : Sample
  copied : ℕ → Sample
  idr_fallback : Sample

unfoldable pub record_capture : SendDiag → ℕ → Bool → SendDiag
record_capture d us had_frame =
    if had_frame
    then record d { cap = add d.cap us; n_frames = add_u32 d.n_frames 1 }
    else record d { capn = add d.capn us; n_null = add_u32 d.n_null 1 }

unfoldable pub record_enc_split : SendDiag → ℕ → ℕ → ℕ → SendDiag
record_enc_split d encp_us lock_us ecb_us = record d {
  encp = add d.encp encp_us;
  lock = add d.lock lock_us;
  ecb = add d.ecb ecb_us;
}

unfoldable pub record_send_video : SendDiag → ℕ → Bool → SendDiag
record_send_video d us sent =
    let d' = record d { sendv = add d.sendv us } in
    if sent
    then record d' { n_sendv_ok = add_u32 d.n_sendv_ok 1 }
    else record d' { n_sendv_fail = add_u32 d.n_sendv_fail 1 }

-- All `record_*` members, by their call.
unfoldable pub record_sample : SendDiag → Sample → SendDiag
unfolding record_capture record_enc_split record_send_video
record_sample d (capture us had_frame) = record_capture d us had_frame
record_sample d (encode us) = record d { enc = add d.enc us }
record_sample d (enc_split a b c) = record_enc_split d a b c
record_sample d preview_miss = record d { n_prev_miss = add_u32 d.n_prev_miss 1 }
record_sample d (interop us) = record d { d3d = add d.d3d us }
record_sample d (preview us) = record d { prev = add d.prev us }
record_sample d (total us) = record d { tot = add d.tot us }
record_sample d (paced us) = record d { pace = add d.pace us }
record_sample d (send_video us sent) = record_send_video d us sent
record_sample d (audio_drain us) = record d { senda = add d.senda us }
record_sample d repeat = record d { n_dup = add_u32 d.n_dup 1 }
record_sample d (copied us) = record d { copy = add d.copy us }
record_sample d idr_fallback = record d { n_idr_fallback = add_u32 d.n_idr_fallback 1 }

unfoldable pub stats_of : SendDiag → SendDiagStats
stats_of d = record {
  cap_avg_us = avg d.cap;
  cap_max_us = d.cap.max_us;
  capn_avg_us = avg d.capn;
  capn_max_us = d.capn.max_us;
  enc_avg_us = avg d.enc;
  enc_max_us = d.enc.max_us;
  encp_avg_us = avg d.encp;
  encp_max_us = d.encp.max_us;
  lock_avg_us = avg d.lock;
  lock_max_us = d.lock.max_us;
  ecb_avg_us = avg d.ecb;
  ecb_max_us = d.ecb.max_us;
  d3d_avg_us = avg d.d3d;
  d3d_max_us = d.d3d.max_us;
  prev_avg_us = avg d.prev;
  prev_max_us = d.prev.max_us;
  tot_avg_us = avg d.tot;
  tot_max_us = d.tot.max_us;
  pace_avg_us = avg d.pace;
  pace_max_us = d.pace.max_us;
  sendv_avg_us = avg d.sendv;
  sendv_max_us = d.sendv.max_us;
  senda_avg_us = avg d.senda;
  senda_max_us = d.senda.max_us;
  copy_avg_us = avg d.copy;
  copy_max_us = d.copy.max_us;
  n_frames = d.n_frames;
  n_null = d.n_null;
  n_dup = d.n_dup;
  n_idr_fallback = d.n_idr_fallback;
  n_prev_miss = d.n_prev_miss;
  n_sendv_ok = d.n_sendv_ok;
  n_sendv_fail = d.n_sendv_fail;
  n_senda = d.senda.count;
}

-- `none` is the return value false.
unfoldable pub maybe_flush : SendDiag → ℕ → SendDiag × Option SendDiagStats
unfolding stats_of
maybe_flush d now_us =
    if ltb (sub_u64 now_us d.window_start_us) window_us
    then (d, none)
    else (fresh_window now_us, some (stats_of d))
