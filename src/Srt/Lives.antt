-- ===== src/Srt/Lives.antt =====
-- The sockets and pollers of srt_output.cpp.
pub mod Opening
pub mod Use
pub mod Life
use reji_studio.Base.{
  one_if, is_at, ℕ, zero, suc, ◌+◌, ◌≤◌, ◌≡◌, Bool, true, false, Option, none, some, List, [], ◌∷◌,
  ◌++◌, ◌==◌, refl, ap, sym, subst, ◌∙◌, arith, if◌then◌else◌, not,
}
use reji_studio.Base.Int.{ℤ, pos, ◌+ℤ◌}
use reji_studio.Srt.{
  SrtCall, open_socket, close_socket, open_epoll, release_epoll, watch, Srt, Done, no, Registry,
  acquire, release, SrtConfig, notify_connection_lost,
}
use reji_studio.Srt.Setup.{
  SetupAnswers, configure_socket, try_options, reaches, poll_socket, use_socket, init_internal,
}
use reji_studio.Srt.Worker.{
  PollEvent, WorkerAnswers, data_socket, update_state, update_state_from_socket, drop_client,
  on_error, on_accept, worker_event, replaced,
}
use reji_studio.Srt.Send.{
  SendAnswer, sent, buffer_full, gone, other_error, push_metric, on_send_error, after_send, send_on,
  send_internal, bitrate_on, apply_bitrate,
}
use reji_studio.Srt.Close.{prepare_shutdown, closing, releasing, do_seh_cleanup, shutdown}
use reji_studio.Srt.Losses.{Action, polled, packet, rate, act, act_all}

pub data Thing : Type 0 where
  socket : ℕ → Thing
  poller : ℕ → Thing

abbrev pub opens : Thing → SrtCall → ℕ
opens (socket x) (open_socket k) = one_if (k == x)
opens (poller x) (open_epoll k) = one_if (k == x)
opens _ _ = 0

abbrev pub closes : Thing → SrtCall → ℕ
closes (socket x) (close_socket k) = one_if (k == x)
closes (poller x) (release_epoll k) = one_if (k == x)
closes _ _ = 0

abbrev pub opened : Thing → List SrtCall → ℕ
opened t [] = 0
opened t (c ∷ cs) = opens t c + opened t cs

abbrev pub closed : Thing → List SrtCall → ℕ
closed t [] = 0
closed t (c ∷ cs) = closes t c + closed t cs

abbrev pub owns : Thing → Srt → ℕ
owns (socket x) s = is_at s.sock x + is_at s.client_sock x
owns (poller x) s = is_at s.epoll_id x

abbrev pub IsBalanced : Thing → Srt → Srt × List SrtCall → Type 0
IsBalanced t s o = opened t o.1 + owns t s ≡ closed t o.1 + owns t o.0

pub opened-append :
    (t : Thing) (xs ys : List SrtCall) → opened t (xs ++ ys) ≡ opened t xs + opened t ys
opened-append t [] ys = omega arith
opened-append t (c ∷ xs) ys = omega (arith, opened-append t xs ys)

pub closed-append :
    (t : Thing) (xs ys : List SrtCall) → closed t (xs ++ ys) ≡ closed t xs + closed t ys
closed-append t [] ys = omega arith
closed-append t (c ∷ xs) ys = omega (arith, closed-append t xs ys)

pub configure-IsQuiet :
    (t : Thing) (l : ℕ) (cfg : SrtConfig) (k : ℕ) (takes : ℕ → Bool)
    → (opened t (configure_socket l cfg k takes).0 ≡ 0)
      × (closed t (configure_socket l cfg k takes).0 ≡ 0)
unfolding configure_socket try_options
configure-IsQuiet t l cfg k takes = ground arith
