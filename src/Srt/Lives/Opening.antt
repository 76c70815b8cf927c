-- ===== src/Srt/Lives/Opening.antt =====
-- The sockets and pollers of init_internal in srt_output.cpp.
use reji_studio.Base.{ℕ, ◌+◌, ◌≡◌, Option, none, some, [], ◌∷◌, arith}
use reji_studio.Srt.{open_socket, close_socket, Srt, Registry, SrtConfig}
use reji_studio.Srt.Setup.{SetupAnswers, configure_socket, poll_socket, use_socket, init_internal}
use reji_studio.Srt.Lives.{
  Thing, opens, opened, closed, owns, IsBalanced, opened-append, closed-append, configure-IsQuiet,
}

poll-IsBalanced :
    (t : Thing) (s : Srt) (k : ℕ) (a : SetupAnswers) (e : Option ℕ)
    → s.sock ≡ none
    → s.epoll_id ≡ none
    → let d = poll_socket (record s { sock = some k; epoll_id = e }) k a e in
      opens t (open_socket k) + opened t d.calls + owns t s ≡ closed t d.calls + owns t d.state
unfolding poll_socket
poll-IsBalanced t s k a e p q = ground (arith, p, q)

use_socket-IsBalanced :
    (t : Thing) (l : ℕ) (s : Srt) (a : SetupAnswers) (k : Option ℕ)
    → s.sock ≡ none
    → s.epoll_id ≡ none
    → let d = use_socket l s a k in IsBalanced t s (d.state, d.calls)
unfolding use_socket
use_socket-IsBalanced t l s a none p q = ground (arith, p)
use_socket-IsBalanced t l s a (some k) p q =
    let conf = (configure_socket l s.cfg k a.options).0 in
    let d = poll_socket (record s { sock = some k; epoll_id = a.epoll }) k a a.epoll in
    ground (
      arith,
      p,
      q,
      configure-IsQuiet t l s.cfg k a.options,
      poll-IsBalanced t s k a a.epoll p q,
      opened-append t conf d.calls,
      closed-append t conf d.calls,
      opened-append t conf (close_socket k ∷ []),
      closed-append t conf (close_socket k ∷ []),
    )

reset-owns :
    (t : Thing) (s : Srt) (cfg : SrtConfig) (b : ℕ)
    → owns t (record s { cfg = cfg; bitrate_kbps = b }) ≡ owns t s
reset-owns t s cfg b = ground arith

pub init-IsBalanced :
    (t : Thing) (l : ℕ) (r : Registry) (s : Srt) (cfg : SrtConfig) (a : SetupAnswers)
    → s.sock ≡ none
    → s.epoll_id ≡ none
    → let d = (init_internal l r s cfg a).1 in IsBalanced t s (d.state, d.calls)
unfolding init_internal
init-IsBalanced t l r s cfg a p q =
    let ready = record s { cfg = cfg; bitrate_kbps = cfg.bandwidth_kbps } in
    ground
      (arith, reset-owns t s cfg cfg.bandwidth_kbps, use_socket-IsBalanced t l ready a a.socket p q)
