-- ===== src/Srt/Worker.antt =====
-- src/pipeline/output/srt_output.cpp: what the worker thread does with one event of the poller.
use reji_studio.Base.{
  ℕ, Bool, true, false, ◌&&◌, not, Option, none, some, List, [], ◌∷◌, ◌++◌, ◌==◌, if◌then◌else◌,
}
use reji_studio.Srt.{
  socket_disconnected, client_disconnected, epoll_error, connect_failed, SrtCall, open_socket,
  close_socket, watch, unwatch, Srt, notify_connection_lost,
}
use reji_studio.Srt.Setup.{configure_socket}

-- An event of the poller: the socket it is about, and its flags.
pub record PollEvent : Type 0 where
  pub fd : ℕ
  pub has_err : Bool
  pub has_in : Bool
  pub has_out_or_connect : Bool

-- What libsrt answers while an event is handled: the socket that accept gives, the options a new
-- client takes, and whether the watched socket's state is SRTS_CONNECTED.
pub record WorkerAnswers : Type 0 where
  pub accepted : Option ℕ
  pub options : ℕ → Bool
  pub is_connected : Bool

-- The socket that carries the packets.
abbrev pub data_socket : Srt → Option ℕ
data_socket s = if s.cfg.caller_mode then s.sock else s.client_sock

abbrev pub noting : Srt × List SrtCall → List SrtCall → Srt × List SrtCall
noting r before = (r.0, before ++ r.1)

-- The state of the socket that is to be watched, if there is one.
unfoldable pub update_state : Srt → Option ℕ → Bool → Srt × List SrtCall
unfolding notify_connection_lost
update_state s none now_connected = (record s { connected = false }, [])
update_state s (some k) now_connected =
    let seen = record s { connected = now_connected } in
    let lost_now = notify_connection_lost seen socket_disconnected in
    if now_connected
    then (record seen { notified_lost = false }, [])
    else if s.connected && not s.shutting_down
    then lost_now
    else (seen, [])

unfoldable pub update_state_from_socket : Srt → WorkerAnswers → Srt × List SrtCall
unfolding update_state
update_state_from_socket s a = update_state s (data_socket s) a.is_connected

-- ev[0].fd == cs, in listener mode; without a client cs is SRT_INVALID_SOCK, which no event is about.
abbrev pub is_client : Srt → ℕ → Bool
is_client s fd =
    if s.cfg.caller_mode then false else elim s.client_sock [ none ↦ false | some c ↦ c == fd ]

unfoldable pub drop_client : Srt → ℕ → Srt × List SrtCall
unfolding notify_connection_lost
drop_client s c =
    let dropped = record s { client_sock = none; connected = false } in
    let told = notify_connection_lost dropped client_disconnected in
    noting (if s.shutting_down then (dropped, []) else told) (unwatch c ∷ close_socket c ∷ [])

unfoldable pub on_error : Srt → ℕ → Srt × List SrtCall
unfolding drop_client notify_connection_lost
on_error s fd =
    if is_client s fd
    then drop_client s fd
    else notify_connection_lost (record s { connected = false })
        (if s.connected then epoll_error else connect_failed)

abbrev pub replaced : Option ℕ → List SrtCall
replaced none = []
replaced (some p) = unwatch p ∷ close_socket p ∷ []

-- The client before is closed; the new one is configured, as far as it takes the options.
unfoldable pub on_accept : ℕ → Srt → WorkerAnswers → Option ℕ → Srt × List SrtCall
unfolding configure_socket
on_accept default_latency s a none = (s, [])
on_accept default_latency s a (some c) =
    let closing = replaced s.client_sock in
    (
      record s { client_sock = some c; connected = true; notified_lost = false },
      open_socket c ∷ closing
          ++ ((configure_socket default_latency s.cfg c a.options).0 ++ watch c ∷ []),
    )

unfoldable pub worker_event : ℕ → Srt → PollEvent → WorkerAnswers → Srt × List SrtCall
unfolding on_error on_accept update_state_from_socket
worker_event default_latency s e a =
    if e.has_err
    then on_error s e.fd
    else if e.has_in && not s.cfg.caller_mode
    then on_accept default_latency s a a.accepted
    else if e.has_out_or_connect
    then update_state_from_socket s a
    else (s, [])

-- One pass of the loop; a poll that times out brings no event.
unfoldable pub worker_pass : ℕ → Srt → Option (PollEvent × WorkerAnswers) → Srt × List SrtCall
unfolding worker_event
worker_pass default_latency s none = (s, [])
worker_pass default_latency s (some e) = worker_event default_latency s e.0 e.1

-- while (!shutting_down), over the polls that are left when the flag is raised; the flag is raised by
-- another thread after them.
pub worker_loop : ℕ → Srt → List (Option (PollEvent × WorkerAnswers)) → Srt × List SrtCall
worker_loop default_latency s [] = (record s { connected = false }, [])
worker_loop default_latency s (p ∷ ps) =
    let o = worker_pass default_latency s p in noting (worker_loop default_latency o.0 ps) o.1
