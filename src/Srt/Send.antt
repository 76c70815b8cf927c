-- ===== src/Srt/Send.antt =====
-- src/pipeline/output/srt_output.cpp: sending a packet, and the bitrate.
use reji_studio.Base.{
  ℕ, ◌+◌, ◌-◌, ◌*◌, ◌/◌, ◌%◌, ◌^◌, Bool, true, false, ◌||◌, not, Option, none, some, List, [], ◌∷◌,
  ◌==◌, ltb, if◌then◌else◌,
}
use reji_studio.Base.Int.{pos, pos_part, ◌-ℤ◌, ltb_ℤ}
use reji_studio.Srt.{
  send_connection_lost, maxbw, SrtCall, send_message, metrics, set_option, Srt, Done, no,
  notify_connection_lost,
}
use reji_studio.Srt.Worker.{data_socket}

abbrev pub max_payload_bytes : ℕ
max_payload_bytes = 1456

-- srt_sendmsg2: sent, or the class of the error that srt_getlasterror names. `gone` stands for
-- ECONNLOST, ECONNREJ, ECONNFAIL, ECONNSETUP and ENOCONN.
pub data SendAnswer : Type 0 where
  sent : SendAnswer
  buffer_full : SendAnswer
  gone : SendAnswer
  other_error : SendAnswer

-- Microseconds since 1970 from a FILETIME.
unfoldable pub unix_us : ℕ → ℕ
unix_us raw = if ltb 116_444_736_000_000_000 raw then (raw - 116_444_736_000_000_000) / 10 else 0

-- The bytes are counted, and once a second the rate is reported and the count begins anew.
unfoldable pub push_metric : Srt → ℕ → ℕ → Srt × List SrtCall
push_metric s size ts_us =
    let bytes = (s.bytes_since_last_push + size) % 2 ^ 64 in
    let elapsed_us = pos ts_us -ℤ s.last_metric_push_us in
    let kbps = bytes * 8000 % 2 ^ 64 / pos_part elapsed_us % 2 ^ 32 in
    if ltb_ℤ elapsed_us (pos 1_000_000) then (record s { bytes_since_last_push = bytes }, []) else (
      record s { bytes_since_last_push = 0; last_metric_push_us = pos ts_us },
      metrics kbps ts_us ∷ [],
    )

unfoldable pub on_send_error : Srt → Srt × List SrtCall
unfolding notify_connection_lost
on_send_error s =
    let off = record s { connected = false } in
    let told = notify_connection_lost off send_connection_lost in
    if s.shutting_down then (off, []) else told

-- After srt_sendmsg2 of `size` bytes on socket k.
unfoldable pub after_send : Srt → ℕ → ℕ → SendAnswer → ℕ → Done
unfolding push_metric on_send_error unix_us
after_send s k size sent raw =
    let m = push_metric s size (unix_us raw) in
    record { state = m.0; ok = true; calls = send_message k size ∷ m.1 }
after_send s k size buffer_full raw = record {
  state = s;
  ok = false;
  calls = send_message k size ∷ [];
}
after_send s k size gone raw =
    let l = on_send_error s in record { state = l.0; ok = false; calls = send_message k size ∷ l.1 }
after_send s k size other_error raw = record {
  state = s;
  ok = false;
  calls = send_message k size ∷ [];
}

unfoldable pub send_on : Srt → Option ℕ → ℕ → SendAnswer → ℕ → Done
unfolding after_send
send_on s none size answer raw = no s
send_on s (some k) size answer raw = after_send s k size answer raw

-- The data pointer is null or not; `raw` is the FILETIME read after a successful send.
unfoldable pub send_internal : Srt → Bool → ℕ → SendAnswer → ℕ → Done
unfolding send_on
send_internal s has_data size answer raw =
    if not s.initialized
    then no s
    else if s.shutting_down
    then no s
    else if not has_data || ((size == 0) || ltb max_payload_bytes size)
    then no s
    else if not s.connected
    then no s
    else send_on s (data_socket s) size answer raw

unfoldable pub bitrate_on : Srt → Option ℕ → ℕ → Bool → Done
bitrate_on s none kbps answer = no s
bitrate_on s (some k) kbps answer = record {
  state = record s { bitrate_kbps = kbps };
  ok = answer;
  calls = set_option k maxbw (kbps * 1000) ∷ [];
}

unfoldable pub apply_bitrate : Srt → ℕ → Bool → Done
unfolding bitrate_on
apply_bitrate s kbps answer = bitrate_on s (data_socket s) kbps answer
