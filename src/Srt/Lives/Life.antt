-- ===== src/Srt/Lives/Life.antt =====
-- srt_output.cpp from the opening to the shutdown, once and again.
use reji_studio.Base.{
  ℕ, ◌+◌, ◌≡◌, Bool, true, false, Option, none, some, List, [], ◌∷◌, ◌++◌, refl, ◌∙◌, arith,
  if◌then◌else◌, ◌&&◌,
}
use reji_studio.Base.Int.{pos, negsuc, ◌+ℤ◌, sub_ℕ}
use reji_studio.Srt.{SrtCall, Srt, Registry, acquire, release, SrtConfig, notify_connection_lost}
use reji_studio.Srt.Setup.{SetupAnswers, poll_socket, use_socket, init_internal}
use reji_studio.Srt.Worker.{
  PollEvent, WorkerAnswers, data_socket, update_state, update_state_from_socket, drop_client,
  on_error, on_accept, worker_event,
}
use reji_studio.Srt.Send.{
  SendAnswer, push_metric, on_send_error, after_send, send_on, send_internal, bitrate_on,
  apply_bitrate,
}
use reji_studio.Srt.Close.{prepare_shutdown, do_seh_cleanup, shutdown}
use reji_studio.Srt.Losses.{Action, polled, packet, rate, act, act_all}
use reji_studio.Srt.Lives.{Thing, opened, closed, owns, opened-append, closed-append}
use reji_studio.Srt.Lives.Opening.{init-IsBalanced}
use reji_studio.Srt.Lives.Use.{act_all-IsBalanced}

shutdown-closes :
    (t : Thing) (r : Registry) (s : Srt)
    → s.already_cleaned_up ≡ false
    → let d = (shutdown r s).1 in
      (closed t d.calls ≡ opened t d.calls + owns t s) × (owns t d.state ≡ 0)
unfolding shutdown prepare_shutdown do_seh_cleanup
shutdown-closes t r s h = ground (arith, h)

-- Only a shutdown sets already_cleaned_up_, and nothing clears it.
use_socket-flag :
    (l : ℕ) (s : Srt) (a : SetupAnswers) (k : Option ℕ)
    → (use_socket l s a k).state.already_cleaned_up ≡ s.already_cleaned_up
unfolding use_socket poll_socket
use_socket-flag l s a none = refl
use_socket-flag l s a (some k) = ground arith

init-flag :
    (l : ℕ) (r : Registry) (s : Srt) (cfg : SrtConfig) (a : SetupAnswers)
    → (init_internal l r s cfg a).1.state.already_cleaned_up ≡ s.already_cleaned_up
unfolding init_internal
init-flag l r s cfg a =
    let ready = record s { cfg = cfg; bitrate_kbps = cfg.bandwidth_kbps } in
    ground (arith, use_socket-flag l ready a a.socket)

accept-flag :
    (l : ℕ) (s : Srt) (a : WorkerAnswers) (c : Option ℕ)
    → (on_accept l s a c).0.already_cleaned_up ≡ s.already_cleaned_up
unfolding on_accept
accept-flag l s a none = refl
accept-flag l s a (some c) = refl

update-flag :
    (s : Srt) (k : Option ℕ) (b : Bool)
    → (update_state s k b).0.already_cleaned_up ≡ s.already_cleaned_up
unfolding update_state notify_connection_lost
update-flag s none b = refl
update-flag s (some k) b = ground arith

event-flag :
    (l : ℕ) (s : Srt) (e : PollEvent) (a : WorkerAnswers)
    → (worker_event l s e a).0.already_cleaned_up ≡ s.already_cleaned_up
unfolding worker_event update_state_from_socket on_error drop_client notify_connection_lost
event-flag l s e a =
    ground (arith, accept-flag l s a a.accepted, update-flag s (data_socket s) a.is_connected)

sent-flag :
    (s : Srt) (k : Option ℕ) (size : ℕ) (w : SendAnswer) (raw : ℕ)
    → (send_on s k size w raw).state.already_cleaned_up ≡ s.already_cleaned_up
unfolding send_on after_send push_metric on_send_error notify_connection_lost
sent-flag s none size w raw = refl
sent-flag s (some k) size w raw = ground arith

packet-flag :
    (s : Srt) (has : Bool) (size : ℕ) (w : SendAnswer) (raw : ℕ)
    → (send_internal s has size w raw).state.already_cleaned_up ≡ s.already_cleaned_up
unfolding send_internal
packet-flag s has size w raw = ground (arith, sent-flag s (data_socket s) size w raw)

rate-flag :
    (s : Srt) (k : Option ℕ) (kbps : ℕ) (answer : Bool)
    → (bitrate_on s k kbps answer).state.already_cleaned_up ≡ s.already_cleaned_up
unfolding bitrate_on
rate-flag s none kbps answer = refl
rate-flag s (some k) kbps answer = refl

act-flag : (l : ℕ) (s : Srt) (x : Action) → (act l s x).0.already_cleaned_up ≡ s.already_cleaned_up
unfolding act apply_bitrate
act-flag l s (polled e a) = event-flag l s e a
act-flag l s (packet has size w raw) = packet-flag s has size w raw
act-flag l s (rate kbps answer) = rate-flag s (data_socket s) kbps answer

act_all-flag :
    (l : ℕ) (s : Srt) (xs : List Action)
    → (act_all l s xs).0.already_cleaned_up ≡ s.already_cleaned_up
act_all-flag l s [] = refl
act_all-flag l s (x ∷ xs) = act_all-flag l (act l s x).0 xs ∙ act-flag l s x

-- The transport after an init, whether it succeeds or not, and any actions.
abbrev pub lived : ℕ → Registry → Srt → SrtConfig → SetupAnswers → List Action → Srt × List SrtCall
lived l r s cfg a xs =
    let d = (init_internal l r s cfg a).1 in
    let used = act_all l d.state xs in (used.0, d.calls ++ used.1)

lived-flag :
    (l : ℕ) (r : Registry) (s : Srt) (cfg : SrtConfig) (a : SetupAnswers) (xs : List Action)
    → (lived l r s cfg a xs).0.already_cleaned_up ≡ s.already_cleaned_up
lived-flag l r s cfg a xs =
    act_all-flag l (init_internal l r s cfg a).1.state xs ∙ init-flag l r s cfg a

-- The first life of a transport: an init with any answers, a failed one included, then any events,
-- packets and bitrates, then the shutdown. Each socket, of a client too, and each poller is closed as
-- often as it was opened, and none is left in the state.
pub first_life-closes_all :
    (t : Thing) (default_latency : ℕ) (r q : Registry) (s : Srt) (cfg : SrtConfig)
    (a : SetupAnswers) (xs : List Action)
    → s.sock ≡ none
    → s.epoll_id ≡ none
    → s.client_sock ≡ none
    → s.already_cleaned_up ≡ false
    → let life = lived default_latency r s cfg a xs in
      let down = (shutdown q life.0).1 in
      (opened t (life.1 ++ down.calls) ≡ closed t (life.1 ++ down.calls)) × (owns t down.state ≡ 0)
first_life-closes_all t l r q s cfg a xs no_sock no_epoll no_client fresh =
    let d = (init_internal l r s cfg a).1 in
    let used = act_all l d.state xs in
    let life = lived l r s cfg a xs in
    let down = (shutdown q life.0).1 in
    let gone = shutdown-closes t q life.0 (lived-flag l r s cfg a xs ∙ fresh) in
    ground (
      arith,
      no_sock,
      no_epoll,
      no_client,
      init-IsBalanced t l r s cfg a no_sock no_epoll,
      act_all-IsBalanced t l d.state xs,
      gone,
      opened-append t d.calls used.1,
      closed-append t d.calls used.1,
      opened-append t life.1 down.calls,
      closed-append t life.1 down.calls,
    )

idle_shutdown :
    (r : Registry) (s : Srt)
    → s.already_cleaned_up ≡ true
    → ((shutdown r s).1.calls ≡ []) × ((shutdown r s).0 ≡ r)
unfolding shutdown prepare_shutdown do_seh_cleanup
idle_shutdown r s h = ground (arith, h)

idle_owns :
    (t : Thing) (r : Registry) (s : Srt)
    → s.already_cleaned_up ≡ true
    → owns t (shutdown r s).1.state ≡ owns t s
unfolding shutdown prepare_shutdown do_seh_cleanup
idle_owns t r s h = ground (arith, h)

-- A transport that was shut down once is never cleaned up again: after any later init and any
-- actions, the shutdown closes nothing, so what they opened and did not close stays open, and it
-- gives up no reference on the library.
pub second_life-closes_nothing :
    (t : Thing) (default_latency : ℕ) (r q : Registry) (s : Srt) (cfg : SrtConfig)
    (a : SetupAnswers) (xs : List Action)
    → s.sock ≡ none
    → s.epoll_id ≡ none
    → s.already_cleaned_up ≡ true
    → let life = lived default_latency r s cfg a xs in
      let down = shutdown q life.0 in
      (down.1.calls ≡ [])
      × ((down.0 ≡ q) × (opened t life.1 + owns t s ≡ closed t life.1 + owns t down.1.state))
second_life-closes_nothing t l r q s cfg a xs no_sock no_epoll done =
    let d = (init_internal l r s cfg a).1 in
    let used = act_all l d.state xs in
    let life = lived l r s cfg a xs in
    let flag = lived-flag l r s cfg a xs ∙ done in
    let idle = idle_shutdown q life.0 flag in
    (
      idle.0,
      (
        idle.1,
        omega (
          arith,
          init-IsBalanced t l r s cfg a no_sock no_epoll,
          act_all-IsBalanced t l d.state xs,
          idle_owns t q life.0 flag,
          opened-append t d.calls used.1,
          closed-append t d.calls used.1,
        ),
      ),
    )

minus_one : (r : Registry) (n : ℕ) → r.refs ≡ pos n → r.refs +ℤ negsuc 0 ≡ sub_ℕ n 1
unfolding ◌+ℤ◌
minus_one r n e = rw e (ground arith)

plus_one : (r : Registry) (n : ℕ) → r.refs ≡ pos n → r.refs +ℤ pos 1 ≡ pos (n + 1)
unfolding ◌+ℤ◌
plus_one r n e = rw e (ground arith)

shutdown-refs :
    (r : Registry) (s : Srt) (n : ℕ)
    → s.already_cleaned_up ≡ false
    → r.ok ≡ true
    → r.refs ≡ pos n
    → (shutdown r s).0.refs ≡ sub_ℕ n 1
unfolding shutdown prepare_shutdown do_seh_cleanup release
shutdown-refs r s n h k e = ground (arith, h, k, minus_one r n e)

-- Whether an init gets as far as the registry.
abbrev pub asks_registry : SrtConfig → SetupAnswers → Bool
asks_registry cfg a = (cfg.has_lost_callback && cfg.has_metrics_callback) && a.com_ok

init-refs :
    (l : ℕ) (r : Registry) (s : Srt) (cfg : SrtConfig) (a : SetupAnswers) (n : ℕ)
    → s.initialized ≡ false
    → r.started ≡ true
    → r.ok ≡ true
    → r.refs ≡ pos n
    → let r' = (init_internal l r s cfg a).0 in
      (r'.ok ≡ true) × (r'.refs ≡ pos (if asks_registry cfg a then n + 1 else n))
unfolding init_internal acquire
init-refs l r s cfg a n i st k e = ground (arith, i, st, k, e, plus_one r n e)

after_init :
    (b : Bool) (n : ℕ) → sub_ℕ (if b then n + 1 else n) 1 ≡ (if b then pos n else sub_ℕ n 1)
after_init true n = ground arith
after_init false n = refl

-- The references on a library that others already use, over a first life: an init that gets as far
-- as the registry, whether it then fails or not, is paid back by the shutdown. An init that is refused
-- before, for a missing callback or a failed COM start, takes no reference, and the shutdown gives up
-- one that belongs to another transport.
pub first_life-refs :
    (default_latency : ℕ) (r : Registry) (s : Srt) (cfg : SrtConfig) (a : SetupAnswers)
    (xs : List Action) (n : ℕ)
    → s.initialized ≡ false
    → s.already_cleaned_up ≡ false
    → r.started ≡ true
    → r.ok ≡ true
    → r.refs ≡ pos n
    → let opened_by = (init_internal default_latency r s cfg a).0 in
      let life = lived default_latency r s cfg a xs in
      (shutdown opened_by life.0).0.refs ≡ (if asks_registry cfg a then pos n else sub_ℕ n 1)
first_life-refs l r s cfg a xs n i fresh st k e =
    let r' = (init_internal l r s cfg a).0 in
    let life = lived l r s cfg a xs in
    let up = init-refs l r s cfg a n i st k e in
    shutdown-refs r' life.0 (if asks_registry cfg a then n + 1 else n)
      (lived-flag l r s cfg a xs ∙ fresh) up.0 up.1
    ∙ after_init (asks_registry cfg a) n
