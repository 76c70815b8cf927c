-- ===== src/Nvenc/Handles/Setup.antt =====
-- The stages of NvencEncoder::init in encode_nvenc.cpp, one after the other.
use reji_studio.Base.{ℕ, ◌≡◌, Bool, true, false, none, ◌++◌, ◌∙◌, ap, if◌then◌else◌, arith}
use reji_studio.Nvenc.{Handle, Impl, Outcome, and_then}
use reji_studio.Nvenc.Session.{
  InitAnswers, load_dll, open_session, init_encoder, create_bufs, create_output_bufs,
}
use reji_studio.Nvenc.Handles.{IsBalanced, IsBalanced-and_then, released, holds, released-append}
use reji_studio.Nvenc.Handles.Stages.{
  load_dll-IsBalanced, open_session-IsBalanced, init_encoder-IsBalanced,
  create_output_bufs-IsBalanced,
}

-- A state that holds nothing: as new, or after a shutdown.
pub record IsIdle (s : Impl) : Type 0 where
  pub no_library : s.dll ≡ none
  pub no_session : s.nv_session ≡ none
  pub no_first : s.out_bufs 0 ≡ none
  pub no_second : s.out_bufs 1 ≡ none
  pub no_third : s.out_bufs 2 ≡ none
  pub no_resource : s.reg_res ≡ none
  pub not_ready : s.initialized ≡ false

pub IsIdle-holds : (k : Handle) (s : Impl) → IsIdle s → holds k s ≡ 0
IsIdle-holds k s i =
    ground (arith, i.no_library, i.no_session, i.no_first, i.no_second, i.no_third, i.no_resource)

-- A stage that gives nothing back and does not declare the session ready.
abbrev IsQuiet : Handle → Impl → Outcome → Type 0
IsQuiet k s o = (o.state.initialized ≡ s.initialized) × (released k o.calls ≡ 0)

IsQuiet-if :
    (k : Handle) (s : Impl) (b : Bool) (o n : Outcome)
    → IsQuiet k s o
    → IsQuiet k o.state n
    → IsQuiet k s (if b then record n { calls = o.calls ++ n.calls } else o)
IsQuiet-if k s true o n p q =
    (q.0 ∙ p.0, omega (arith, p.1, q.1, released-append k o.calls n.calls))
IsQuiet-if k s false o n p q = p

IsQuiet-and_then :
    (k : Handle) (s : Impl) (o : Outcome) (next : Impl → Outcome)
    → IsQuiet k s o
    → IsQuiet k o.state (next o.state)
    → IsQuiet k s (and_then o next)
unfolding and_then
IsQuiet-and_then k s o next p q = IsQuiet-if k s o.ok o (next o.state) p q

-- The stages before the pool leave it as it is.
abbrev SamePool : Impl → Outcome → Type 0
SamePool s o = o.state.out_bufs ≡ s.out_bufs

SamePool-if :
    (s : Impl) (b : Bool) (o n : Outcome)
    → SamePool s o
    → SamePool o.state n
    → SamePool s (if b then record n { calls = o.calls ++ n.calls } else o)
SamePool-if s true o n p q = q ∙ p
SamePool-if s false o n p q = p

SamePool-and_then :
    (s : Impl) (o : Outcome) (next : Impl → Outcome)
    → SamePool s o
    → SamePool o.state (next o.state)
    → SamePool s (and_then o next)
unfolding and_then
SamePool-and_then s o next p q = SamePool-if s o.ok o (next o.state) p q

load_dll-SamePool : (v : ℕ) (s : Impl) (a : InitAnswers) → SamePool s (load_dll v s a)
unfolding load_dll
load_dll-SamePool v s a = ground arith

load_dll-session :
    (v : ℕ) (s : Impl) (a : InitAnswers) → (load_dll v s a).state.nv_session ≡ s.nv_session
unfolding load_dll
load_dll-session v s a = ground arith

open_session-SamePool : (a : InitAnswers) (s : Impl) → SamePool s (open_session a s)
unfolding open_session
open_session-SamePool a s = ground arith

init_encoder-SamePool : (a : InitAnswers) (s : Impl) → SamePool s (init_encoder a s)
unfolding init_encoder
init_encoder-SamePool a s = ground arith

load_dll-IsQuiet : (k : Handle) (v : ℕ) (s : Impl) (a : InitAnswers) → IsQuiet k s (load_dll v s a)
unfolding load_dll
load_dll-IsQuiet k v s a = ground arith

open_session-IsQuiet : (k : Handle) (a : InitAnswers) (s : Impl) → IsQuiet k s (open_session a s)
unfolding open_session
open_session-IsQuiet k a s = ground arith

init_encoder-IsQuiet : (k : Handle) (a : InitAnswers) (s : Impl) → IsQuiet k s (init_encoder a s)
unfolding init_encoder
init_encoder-IsQuiet k a s = ground arith

create_output_bufs-IsQuiet :
    (k : Handle) (a : InitAnswers) (s : Impl) → IsQuiet k s (create_output_bufs a s)
unfolding create_output_bufs create_bufs
create_output_bufs-IsQuiet k a s = ground arith

-- The four stages, and each one's start.
abbrev opened : ℕ → Impl → InitAnswers → Outcome
opened v s a = and_then (load_dll v s a) (open_session a)

abbrev encoding : ℕ → Impl → InitAnswers → Outcome
encoding v s a = and_then (opened v s a) (init_encoder a)

abbrev pub staged : ℕ → Impl → InitAnswers → Outcome
staged v s a = and_then (encoding v s a) (create_output_bufs a)

encoding-SamePool : (v : ℕ) (s : Impl) (a : InitAnswers) → SamePool s (encoding v s a)
encoding-SamePool v s a =
    let first = load_dll v s a in
    let second = opened v s a in
    SamePool-and_then s second (init_encoder a)
      (SamePool-and_then s first (open_session a) (load_dll-SamePool v s a)
        (open_session-SamePool a first.state))
      (init_encoder-SamePool a second.state)

pub staged-IsQuiet : (k : Handle) (v : ℕ) (s : Impl) (a : InitAnswers) → IsQuiet k s (staged v s a)
staged-IsQuiet k v s a =
    let first = load_dll v s a in
    let second = opened v s a in
    let third = encoding v s a in
    IsQuiet-and_then k s third (create_output_bufs a)
      (IsQuiet-and_then k s second (init_encoder a)
        (IsQuiet-and_then k s first (open_session a) (load_dll-IsQuiet k v s a)
          (open_session-IsQuiet k a first.state))
        (init_encoder-IsQuiet k a second.state))
      (create_output_bufs-IsQuiet k a third.state)

pub staged-IsBalanced :
    (k : Handle) (v : ℕ) (s : Impl) (a : InitAnswers) → IsIdle s → IsBalanced k s (staged v s a)
staged-IsBalanced k v s a i =
    let first = load_dll v s a in
    let second = opened v s a in
    let third = encoding v s a in
    let pool = encoding-SamePool v s a in
    IsBalanced-and_then k s third (create_output_bufs a)
      (IsBalanced-and_then k s second (init_encoder a)
        (IsBalanced-and_then k s first (open_session a) (load_dll-IsBalanced k v s a i.no_library)
          (open_session-IsBalanced k a first.state (load_dll-session v s a ∙ i.no_session)))
        (init_encoder-IsBalanced k a second.state))
      (create_output_bufs-IsBalanced k a third.state (ap (λ f. f 0) pool ∙ i.no_first)
        (ap (λ f. f 1) pool ∙ i.no_second) (ap (λ f. f 2) pool ∙ i.no_third))
