-- ===== src/Srt/Lives/Use.antt =====
-- The sockets and pollers of an open transport in srt_output.cpp.
use reji_studio.Base.{ℕ, Bool, Option, none, some, List, [], ◌∷◌, ◌++◌, refl, arith}
use reji_studio.Srt.{watch, Srt, notify_connection_lost}
use reji_studio.Srt.Setup.{configure_socket}
use reji_studio.Srt.Worker.{
  PollEvent, WorkerAnswers, data_socket, update_state, update_state_from_socket, drop_client,
  on_error, on_accept, worker_event, replaced,
}
use reji_studio.Srt.Send.{
  SendAnswer, push_metric, on_send_error, after_send, send_on, send_internal, bitrate_on,
  apply_bitrate,
}
use reji_studio.Srt.Losses.{Action, polled, packet, rate, act, act_all}
use reji_studio.Srt.Lives.{Thing, IsBalanced, opened-append, closed-append, configure-IsQuiet}

error-IsBalanced : (t : Thing) (s : Srt) (fd : ℕ) → IsBalanced t s (on_error s fd)
unfolding on_error drop_client notify_connection_lost
error-IsBalanced t s fd = ground arith

accept-IsBalanced :
    (t : Thing) (l : ℕ) (s : Srt) (a : WorkerAnswers) (c : Option ℕ)
    → IsBalanced t s (on_accept l s a c)
unfolding on_accept
accept-IsBalanced t l s a none = refl
accept-IsBalanced t l s a (some c) =
    let conf = (configure_socket l s.cfg c a.options).0 in
    let fin = watch c ∷ [] in
    ground (
      arith,
      configure-IsQuiet t l s.cfg c a.options,
      opened-append t (replaced s.client_sock) (conf ++ fin),
      closed-append t (replaced s.client_sock) (conf ++ fin),
      opened-append t conf fin,
      closed-append t conf fin,
    )

update-IsBalanced :
    (t : Thing) (s : Srt) (k : Option ℕ) (b : Bool) → IsBalanced t s (update_state s k b)
unfolding update_state notify_connection_lost
update-IsBalanced t s none b = ground arith
update-IsBalanced t s (some k) b = ground arith

event-IsBalanced :
    (t : Thing) (l : ℕ) (s : Srt) (e : PollEvent) (a : WorkerAnswers)
    → IsBalanced t s (worker_event l s e a)
unfolding worker_event update_state_from_socket
event-IsBalanced t l s e a = ground (
  arith,
  error-IsBalanced t s e.fd,
  accept-IsBalanced t l s a a.accepted,
  update-IsBalanced t s (data_socket s) a.is_connected,
)

sent-IsBalanced :
    (t : Thing) (s : Srt) (k : Option ℕ) (size : ℕ) (w : SendAnswer) (raw : ℕ)
    → let d = send_on s k size w raw in IsBalanced t s (d.state, d.calls)
unfolding send_on after_send push_metric on_send_error notify_connection_lost
sent-IsBalanced t s none size w raw = refl
sent-IsBalanced t s (some k) size w raw = ground arith

packet-IsBalanced :
    (t : Thing) (s : Srt) (has : Bool) (size : ℕ) (w : SendAnswer) (raw : ℕ)
    → let d = send_internal s has size w raw in IsBalanced t s (d.state, d.calls)
unfolding send_internal
packet-IsBalanced t s has size w raw =
    ground (arith, sent-IsBalanced t s (data_socket s) size w raw)

rate-IsBalanced :
    (t : Thing) (s : Srt) (k : Option ℕ) (kbps : ℕ) (answer : Bool)
    → let d = bitrate_on s k kbps answer in IsBalanced t s (d.state, d.calls)
unfolding bitrate_on
rate-IsBalanced t s none kbps answer = refl
rate-IsBalanced t s (some k) kbps answer = ground arith

act-IsBalanced : (t : Thing) (l : ℕ) (s : Srt) (x : Action) → IsBalanced t s (act l s x)
unfolding act apply_bitrate
act-IsBalanced t l s (polled e a) = event-IsBalanced t l s e a
act-IsBalanced t l s (packet has size w raw) = packet-IsBalanced t s has size w raw
act-IsBalanced t l s (rate kbps answer) = rate-IsBalanced t s (data_socket s) kbps answer

pub act_all-IsBalanced :
    (t : Thing) (l : ℕ) (s : Srt) (xs : List Action) → IsBalanced t s (act_all l s xs)
act_all-IsBalanced t l s [] = refl
act_all-IsBalanced t l s (x ∷ xs) =
    let o = act l s x in
    let rest = act_all l o.0 xs in
    omega (
      arith,
      act-IsBalanced t l s x,
      act_all-IsBalanced t l o.0 xs,
      opened-append t o.1 rest.1,
      closed-append t o.1 rest.1,
    )
