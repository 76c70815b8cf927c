-- ===== src/Srt/Setup.antt =====
-- src/pipeline/output/srt_output.cpp: opening the transport.
use reji_studio.Base.{
  ℕ, ◌+◌, ◌*◌, Bool, true, false, ◌||◌, ◌&&◌, not, Option, none, some, List, [], ◌∷◌, ◌++◌, ◌==◌,
  if◌then◌else◌,
}
use reji_studio.Srt.{
  SrtConfig, SocketOption, sndsyn, rcvsyn, tsbpdmode, latency, transtype, payloadsize, sndtimeo,
  maxbw, SrtCall, open_socket, close_socket, open_epoll, release_epoll, set_option, watch,
  start_monitor, Registry, acquire, Srt, Done, no,
}

pub data ConnectAnswer : Type 0 where
  connecting : ConnectAnswer
  pending : ConnectAnswer
  refused : ConnectAnswer

-- The answers while the transport is opened. `options` says of each mandatory option whether the
-- socket takes it, and `pending` is a connect that is still under way.
pub record SetupAnswers : Type 0 where
  pub com_ok : Bool
  pub startup_ok : Bool
  pub socket : Option ℕ
  pub options : ℕ → Bool
  pub connect : ConnectAnswer
  pub bind_ok : Bool
  pub listen_ok : Bool
  pub epoll : Option ℕ
  pub add_ok : Bool

-- Five options in order, up to the first that is refused.
unfoldable pub try_options : ℕ → (ℕ → Bool) → ℕ → List (SocketOption × ℕ) → List SrtCall × Bool
try_options s takes i [] = ([], true)
try_options s takes i (o ∷ os) =
    let rest = try_options s takes (i + 1) os in
    let call = set_option s o.0 o.1 in
    if takes i then (call ∷ rest.0, rest.1) else (call ∷ [], false)

-- The numbers are SRTT_LIVE, kPayloadSize and kSendTimeoutMs; the default latency, kSrtLatencyMs of
-- include/reji_constants.h, is left open.
unfoldable pub configure_socket : ℕ → SrtConfig → ℕ → (ℕ → Bool) → List SrtCall × Bool
unfolding try_options
configure_socket default_latency cfg s takes =
    let lat = if cfg.latency_ms == 0 then default_latency else cfg.latency_ms in
    let asked =
      try_options s takes 0
        ((sndsyn, 0) ∷ (rcvsyn, 0) ∷ (tsbpdmode, 1) ∷ (latency, lat) ∷ (transtype, 0) ∷ []) in
    let optional =
      set_option s payloadsize 1316
      ∷ set_option s sndtimeo 50
      ∷ set_option s maxbw (cfg.bandwidth_kbps * 1000)
      ∷ [] in
    if asked.1 then (asked.0 ++ optional, true) else asked

-- A connect that fails at once, or a bind or listen that fails.
unfoldable pub reaches : SrtConfig → SetupAnswers → Bool
reaches cfg a =
    if cfg.caller_mode
    then elim a.connect [ connecting ↦ true | pending ↦ true | refused ↦ false ]
    else a.bind_ok && a.listen_ok

-- From the poller on, with a socket that is configured and under way.
unfoldable pub poll_socket : Srt → ℕ → SetupAnswers → Option ℕ → Done
poll_socket s k a none = record {
  state = record s { sock = none };
  ok = false;
  calls = close_socket k ∷ [];
}
poll_socket s k a (some e) =
    if a.add_ok
    then record {
      state = record s {
        epoll_id = some e;
        shutting_down = false;
        notified_lost = false;
        initialized = true;
      };
      ok = true;
      calls = open_epoll e ∷ watch k ∷ start_monitor ∷ [];
    }
    else record {
      state = record s { sock = none; epoll_id = none };
      ok = false;
      calls = open_epoll e ∷ release_epoll e ∷ close_socket k ∷ [];
    }

-- From the new socket on. A failed srt_epoll_create leaves epoll_id negative, which is `none`.
unfoldable pub use_socket : ℕ → Srt → SetupAnswers → Option ℕ → Done
unfolding configure_socket reaches poll_socket
use_socket default_latency s a none = no (record s { sock = none })
use_socket default_latency s a (some k) =
    let conf = configure_socket default_latency s.cfg k a.options in
    let polled = poll_socket (record s { sock = some k; epoll_id = a.epoll }) k a a.epoll in
    let given_up : Done = record {
      state = record s { sock = none };
      ok = false;
      calls = open_socket k ∷ conf.0 ++ close_socket k ∷ [];
    } in
    if not conf.1
    then given_up
    else if not s.cfg.host_parses
    then given_up
    else if not (reaches s.cfg a)
    then given_up
    else record polled { calls = open_socket k ∷ conf.0 ++ polled.calls }

unfoldable pub init_internal : ℕ → Registry → Srt → SrtConfig → SetupAnswers → Registry × Done
unfolding use_socket acquire
init_internal default_latency r s cfg a =
    let got = acquire r a.startup_ok in
    let ready = record s { cfg = cfg; bitrate_kbps = cfg.bandwidth_kbps } in
    if s.initialized
    then (r, no s)
    else if not cfg.has_lost_callback || not cfg.has_metrics_callback
    then (r, no s)
    else if not a.com_ok
    then (r, no s)
    else if not got.1
    then (got.0, no s)
    else (got.0, use_socket default_latency ready a a.socket)
