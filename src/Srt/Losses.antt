-- ===== src/Srt/Losses.antt =====
-- notify_connection_lost of srt_output.cpp under the worker's events and the sender's packets.
use reji_studio.Base.{
  ℕ, ◌+◌, ◌≤◌, ◌≡◌, refl, Bool, false, ◌&&◌, not, one_if, Option, none, some, List, [], ◌∷◌, ◌++◌,
  arith, if◌then◌else◌,
}
use reji_studio.Srt.{SrtCall, watch, lost, Srt, notify_connection_lost}
use reji_studio.Srt.Setup.{configure_socket, try_options}
use reji_studio.Srt.Worker.{
  PollEvent, WorkerAnswers, data_socket, update_state, update_state_from_socket, drop_client,
  on_error, on_accept, worker_event, replaced,
}
use reji_studio.Srt.Send.{
  SendAnswer, sent, buffer_full, gone, other_error, push_metric, on_send_error, after_send, send_on,
  send_internal, bitrate_on, apply_bitrate,
}

-- What the threads do with a transport that is open.
pub data Action : Type 0 where
  polled : PollEvent → WorkerAnswers → Action
  packet : Bool → ℕ → SendAnswer → ℕ → Action
  rate : ℕ → Bool → Action

unfoldable pub act : ℕ → Srt → Action → Srt × List SrtCall
unfolding worker_event send_internal apply_bitrate
act l s (polled e a) = worker_event l s e a
act l s (packet has_data size answer raw) =
    let d = send_internal s has_data size answer raw in (d.state, d.calls)
act l s (rate kbps answer) = let d = apply_bitrate s kbps answer in (d.state, d.calls)

abbrev pub act_all : ℕ → Srt → List Action → Srt × List SrtCall
act_all l s [] = (s, [])
act_all l s (x ∷ xs) = let o = act l s x in let rest = act_all l o.0 xs in (rest.0, o.1 ++ rest.1)

abbrev pub loss_of : SrtCall → ℕ
loss_of (lost why) = 1
loss_of _ = 0

-- The reports of a loss in a journal.
abbrev pub losses : List SrtCall → ℕ
losses [] = 0
losses (c ∷ cs) = loss_of c + losses cs

-- The transport comes to be connected.
abbrev pub connects : Srt → Srt → ℕ
connects s o = one_if (not s.connected && o.connected)

-- How often it does, over a sequence of actions.
abbrev pub connections : ℕ → Srt → List Action → ℕ
connections l s [] = 0
connections l s (x ∷ xs) = let o = act l s x in connects s o.0 + connections l o.0 xs

-- How many reports a state still allows.
abbrev pub armed : Srt → ℕ
armed s = if s.notified_lost then 0 else 1

losses-append : (xs ys : List SrtCall) → losses (xs ++ ys) ≡ losses xs + losses ys
losses-append [] ys = omega arith
losses-append (c ∷ xs) ys = omega (arith, losses-append xs ys)

-- A transport whose loss was reported is not connected.
abbrev IsTold : Srt → Type 0
IsTold s = (s.notified_lost && s.connected) ≡ false

-- Reports made, and still allowed, are paid for by what was allowed and by a new connection.
abbrev IsPaid : Srt → Srt × List SrtCall → Type 0
IsPaid s o = (losses o.1 + armed o.0 ≤ connects s o.0 + armed s) × IsTold o.0

configure-silent :
    (l : ℕ) (s : Srt) (k : ℕ) (takes : ℕ → Bool) → losses (configure_socket l s.cfg k takes).0 ≡ 0
unfolding configure_socket try_options
configure-silent l s k takes = ground arith

on_error-IsPaid : (s : Srt) (fd : ℕ) → IsTold s → IsPaid s (on_error s fd)
unfolding on_error drop_client notify_connection_lost
on_error-IsPaid s fd h = (ground arith, ground arith)

on_accept-IsPaid :
    (l : ℕ) (s : Srt) (a : WorkerAnswers) (c : Option ℕ) → IsTold s → IsPaid s (on_accept l s a c)
unfolding on_accept
on_accept-IsPaid l s a none h = (omega arith, h)
on_accept-IsPaid l s a (some c) h =
    let conf = (configure_socket l s.cfg c a.options).0 in
    (
      ground (
        arith,
        h,
        configure-silent l s c a.options,
        losses-append (replaced s.client_sock) (conf ++ (watch c ∷ [])),
        losses-append conf (watch c ∷ []),
      ),
      refl,
    )

update-IsPaid : (s : Srt) (k : Option ℕ) (b : Bool) → IsTold s → IsPaid s (update_state s k b)
unfolding update_state notify_connection_lost
update-IsPaid s none b h = (omega arith, ground arith)
update-IsPaid s (some k) b h = (ground (arith, h), ground (arith, h))

event-IsPaid :
    (l : ℕ) (s : Srt) (e : PollEvent) (a : WorkerAnswers)
    → IsTold s
    → IsPaid s (worker_event l s e a)
unfolding worker_event update_state_from_socket
event-IsPaid l s e a h =
    let failed = on_error-IsPaid s e.fd h in
    let taken = on_accept-IsPaid l s a a.accepted h in
    let seen = update-IsPaid s (data_socket s) a.is_connected h in
    (ground (arith, failed.0, taken.0, seen.0), ground (arith, h, failed.1, taken.1, seen.1))

sent-IsPaid :
    (s : Srt) (k size : ℕ) (w : SendAnswer) (raw : ℕ)
    → IsTold s
    → let d = after_send s k size w raw in IsPaid s (d.state, d.calls)
unfolding after_send push_metric on_send_error notify_connection_lost
sent-IsPaid s k size sent raw h = (ground arith, ground (arith, h))
sent-IsPaid s k size buffer_full raw h = (omega arith, h)
sent-IsPaid s k size gone raw h = (ground arith, ground arith)
sent-IsPaid s k size other_error raw h = (omega arith, h)

send_on-IsPaid :
    (s : Srt) (k : Option ℕ) (size : ℕ) (w : SendAnswer) (raw : ℕ)
    → IsTold s
    → let d = send_on s k size w raw in IsPaid s (d.state, d.calls)
unfolding send_on
send_on-IsPaid s none size w raw h = (omega arith, h)
send_on-IsPaid s (some k) size w raw h = sent-IsPaid s k size w raw h

packet-IsPaid :
    (s : Srt) (has : Bool) (size : ℕ) (w : SendAnswer) (raw : ℕ)
    → IsTold s
    → let d = send_internal s has size w raw in IsPaid s (d.state, d.calls)
unfolding send_internal
packet-IsPaid s has size w raw h =
    let p = send_on-IsPaid s (data_socket s) size w raw h in
    (ground (arith, p.0), ground (arith, h, p.1))

rate-IsPaid :
    (s : Srt) (k : Option ℕ) (kbps : ℕ) (answer : Bool)
    → IsTold s
    → let d = bitrate_on s k kbps answer in IsPaid s (d.state, d.calls)
unfolding bitrate_on
rate-IsPaid s none kbps answer h = (omega arith, h)
rate-IsPaid s (some k) kbps answer h = (omega arith, h)

act-IsPaid : (l : ℕ) (s : Srt) (x : Action) → IsTold s → IsPaid s (act l s x)
unfolding act apply_bitrate
act-IsPaid l s (polled e a) h = event-IsPaid l s e a h
act-IsPaid l s (packet has size w raw) h = packet-IsPaid s has size w raw h
act-IsPaid l s (rate kbps answer) h = rate-IsPaid s (data_socket s) kbps answer h

all-IsPaid :
    (l : ℕ) (s : Srt) (xs : List Action)
    → IsTold s
    → let o = act_all l s xs in losses o.1 + armed o.0 ≤ connections l s xs + armed s
all-IsPaid l s [] h = omega arith
all-IsPaid l s (x ∷ xs) h =
    let o = act l s x in
    let rest = act_all l o.0 xs in
    let one = act-IsPaid l s x h in
    omega (arith, one.0, all-IsPaid l o.0 xs one.1, losses-append o.1 rest.1)

-- The events of the worker and the packets and bitrates of the other threads, each whole and in any
-- order, on a transport that is not connected if its loss was reported: the client is told of a lost
-- connection at most as often as the transport comes to be connected, and once more if the state
-- began with a report to make.
pub losses_bounded :
    (default_latency : ℕ) (s : Srt) (xs : List Action)
    → (s.notified_lost && s.connected) ≡ false
    → losses (act_all default_latency s xs).1 ≤ connections default_latency s xs + armed s
losses_bounded l s xs h = omega (arith, all-IsPaid l s xs h)
