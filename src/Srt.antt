-- ===== src/Srt.antt =====
-- src/pipeline/output/srt_output.h and the state of srt_output.cpp: the SRT transport. libsrt is
-- foreign: sockets and pollers are numbers, its answers are arguments, and a journal keeps the calls
-- that open, close or configure one, the callbacks and the packets. The log lines and the COM
-- apartment are left out; a guarded call that faults answers like one that fails.
pub mod Setup
pub mod Worker
pub mod Send
pub mod Close
pub mod Losses
pub mod Lives
use reji_studio.Base.{
  ℕ, zero, suc, ◌+◌, ◌*◌, Bool, true, false, Option, none, some, List, [], ◌∷◌, ◌++◌, ◌==◌,
  if◌then◌else◌,
}
use reji_studio.Base.Int.{ℤ, pos, negsuc, ◌+ℤ◌}

-- SrtOutput::Config; of the host only whether it parses matters, and a callback is set or not.
pub record SrtConfig : Type 0 where
  pub host_parses : Bool
  pub latency_ms : ℕ
  pub bandwidth_kbps : ℕ
  pub caller_mode : Bool
  pub has_lost_callback : Bool
  pub has_metrics_callback : Bool

pub data SocketOption : Type 0 where
  sndsyn : SocketOption
  rcvsyn : SocketOption
  tsbpdmode : SocketOption
  latency : SocketOption
  transtype : SocketOption
  payloadsize : SocketOption
  sndtimeo : SocketOption
  maxbw : SocketOption

pub data LossReason : Type 0 where
  socket_disconnected : LossReason
  client_disconnected : LossReason
  epoll_error : LossReason
  connect_failed : LossReason
  send_connection_lost : LossReason

pub data SrtCall : Type 0 where
  open_socket : ℕ → SrtCall
  close_socket : ℕ → SrtCall
  open_epoll : ℕ → SrtCall
  release_epoll : ℕ → SrtCall
  set_option : ℕ → SocketOption → ℕ → SrtCall
  watch : ℕ → SrtCall
  unwatch : ℕ → SrtCall
  start_monitor : SrtCall
  lost : LossReason → SrtCall
  send_message : ℕ → ℕ → SrtCall
  metrics : ℕ → ℕ → SrtCall
  global_cleanup : SrtCall

-- SrtGlobalRegistry: whether srt_startup has run, and well; the count is an int.
pub record Registry : Type 0 where
  pub started : Bool
  pub ok : Bool
  pub refs : ℤ

abbrev pub new_registry : Registry
new_registry = record { started = false; ok = false; refs = pos 0 }

-- The argument is the answer of srt_startup, asked for once.
unfoldable pub acquire : Registry → Bool → Registry × Bool
acquire r startup_ok =
    let ok = if r.started then r.ok else startup_ok in
    if ok
    then (record { started = true; ok = true; refs = r.refs +ℤ pos 1 }, true)
    else (record r { started = true; ok = false }, false)

unfoldable pub release : Registry → Registry
release r = if r.ok then record r { refs = r.refs +ℤ negsuc 0 } else r

-- SrtOutput::Impl. The worker thread runs exactly while init has started it and it is not joined.
pub record Srt : Type 0 where
  pub sock : Option ℕ
  pub client_sock : Option ℕ
  pub epoll_id : Option ℕ
  pub cfg : SrtConfig
  pub connected : Bool
  pub initialized : Bool
  pub shutting_down : Bool
  pub notified_lost : Bool
  pub already_cleaned_up : Bool
  pub bitrate_kbps : ℕ
  pub last_metric_push_us : ℤ
  pub bytes_since_last_push : ℕ

abbrev pub empty_config : SrtConfig
empty_config = record {
  host_parses = false;
  latency_ms = 0;
  bandwidth_kbps = 0;
  caller_mode = false;
  has_lost_callback = false;
  has_metrics_callback = false;
}

abbrev pub new_srt : Srt
new_srt = record {
  sock = none;
  client_sock = none;
  epoll_id = none;
  cfg = empty_config;
  connected = false;
  initialized = false;
  shutting_down = false;
  notified_lost = false;
  already_cleaned_up = false;
  bitrate_kbps = 0;
  last_metric_push_us = pos 0;
  bytes_since_last_push = 0;
}

pub record Done : Type 0 where
  pub state : Srt
  pub ok : Bool
  pub calls : List SrtCall

abbrev pub no : Srt → Done
no s = record { state = s; ok = false; calls = [] }

-- The loss is reported once until it is armed again.
unfoldable pub notify_connection_lost : Srt → LossReason → Srt × List SrtCall
notify_connection_lost s why =
    if s.notified_lost then (s, []) else (record s { notified_lost = true }, lost why ∷ [])
