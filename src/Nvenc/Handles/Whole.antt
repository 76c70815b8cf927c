-- ===== src/Nvenc/Handles/Whole.antt =====
-- NvencEncoder in encode_nvenc.cpp from init to shutdown.
use reji_studio.Base.{
  ℕ, ◌+◌, ◌≡◌, Bool, true, false, List, [], ◌++◌, ◌==◌, ◌∙◌, ap, sym, subst, if◌then◌else◌, arith,
  refl, not,
}
use mathlib.Core.Bool.{false≢true}
use reji_studio.Nvenc.{
  Config, Handle, library, session, buffer, resource, mapped, locked, NvCall, Impl, Outcome,
  and_then, refused,
}
use reji_studio.Nvenc.Session.{InitAnswers, mark_ready, init, destroy, flush, shutdown}
use reji_studio.Nvenc.Handles.{
  IsBalanced, IsBalanced-join, acquired, released, holds, acquired-append, released-append,
}
use reji_studio.Nvenc.Handles.Stages.{destroy-gives_all}
use reji_studio.Nvenc.Handles.Setup.{
  IsIdle, IsIdle-holds, staged, staged-IsQuiet, staged-IsBalanced,
}
use reji_studio.Nvenc.Handles.Requests.{
  Request, serve_all, serve_all-IsBalanced, serve_all-ready, flush-IsBalanced,
}

abbrev configured : Impl → Config → Bool → Impl
configured s cfg cb = record s { config = cfg; on_packet = cb }

configured-IsIdle : (s : Impl) (cfg : Config) (cb : Bool) → IsIdle s → IsIdle (configured s cfg cb)
configured-IsIdle s cfg cb i = record {
  no_library = i.no_library;
  no_session = i.no_session;
  no_first = i.no_first;
  no_second = i.no_second;
  no_third = i.no_third;
  no_resource = i.no_resource;
  not_ready = i.not_ready;
}

-- What holds after an init from an idle state, for each handle.
abbrev IsSetUp : Handle → Impl → Outcome → Type 0
IsSetUp k s o =
    IsBalanced k s o × ((o.state.initialized ≡ o.ok) × ((o.ok ≡ false) → released k o.calls ≡ 0))

marked : (k : Handle) (s : Impl) → IsBalanced k s (mark_ready s)
marked k s = ground arith

ready_if :
    (k : Handle) (s : Impl) (b : Bool) (o : Outcome)
    → o.ok ≡ b
    → IsBalanced k s o
    → o.state.initialized ≡ false
    → released k o.calls ≡ 0
    → IsSetUp k s (
        if b
        then record (mark_ready o.state) { calls = o.calls ++ (mark_ready o.state).calls }
        else o)
ready_if k s true o e p q r = (
  IsBalanced-join k s o (mark_ready o.state) p (marked k o.state),
  (refl, λ f. absurd (false≢true (sym f))),
)
ready_if k s false o e p q r = (p, (q ∙ sym e, λ _. r))

-- The configuration and the callback hold no handle.
moved :
    (k : Handle) (s : Impl) (cfg : Config) (cb : Bool) (o : Outcome)
    → IsSetUp k (configured s cfg cb) o
    → IsSetUp k s o
moved (library x) s cfg cb o h = h
moved (session x) s cfg cb o h = h
moved (buffer x) s cfg cb o h = h
moved (resource x) s cfg cb o h = h
moved (mapped x) s cfg cb o h = h
moved (locked x) s cfg cb o h = h

staged-IsSetUp :
    (k : Handle) (v : ℕ) (s : Impl) (a : InitAnswers)
    → IsIdle s
    → IsSetUp k s (and_then (staged v s a) mark_ready)
unfolding and_then
staged-IsSetUp k v s a i =
    let o = staged v s a in
    let quiet = staged-IsQuiet k v s a in
    ready_if k s o.ok o refl (staged-IsBalanced k v s a i) (quiet.0 ∙ i.not_ready) quiet.1

refused-IsSetUp : (k : Handle) (s : Impl) → IsIdle s → IsSetUp k s (refused s)
refused-IsSetUp k s i = (refl, (i.not_ready, λ _. refl))

init-IsSetUp :
    (k : Handle) (v : ℕ) (s : Impl) (dev : Bool) (cfg : Config) (cb : Bool) (a : InitAnswers)
    → IsIdle s
    → IsSetUp k s (init v s dev cfg cb a)
unfolding init
init-IsSetUp k v s false cfg cb a i = refused-IsSetUp k s i
init-IsSetUp k v s true cfg cb a i =
    elim (cfg.fps_num == 0)
      as (λ b.
        IsSetUp k s
          (if b then refused s else and_then (staged v (configured s cfg cb) a) mark_ready)) [
            | true ↦ refused-IsSetUp k s i
            | false ↦
                moved k s cfg cb _
                  (staged-IsSetUp k v (configured s cfg cb) a (configured-IsIdle s cfg cb i))
          ]

-- The calls of a whole life: an init, any requests, and the shutdown.
abbrev pub whole_life : Outcome → List Request → List NvCall
whole_life set_up qs =
    let used = serve_all set_up.state qs in
    set_up.calls ++ (used.calls ++ (shutdown used.state).calls)

pub shutdown-idle :
    (s : Impl) → s.initialized ≡ false → shutdown s ≡ record { state = s; ok = true; calls = [] }
unfolding shutdown
shutdown-idle s h =
    ap
      (λ b.
        if not b
        then (let r : Outcome = record { state = s; ok = true; calls = [] } in r)
        else (let d = destroy s in
            let r : Outcome = record {
              state = record d.state { initialized = false };
              ok = true;
              calls = flush s ++ d.calls;
            } in
            r))
      h

shutdown-gives_all :
    (k : Handle) (s : Impl)
    → s.initialized ≡ true
    → released k (shutdown s).calls ≡ acquired k (shutdown s).calls + holds k s
unfolding shutdown
shutdown-gives_all k s h =
    let d = destroy s in
    let down : Outcome = record {
      state = record d.state { initialized = false };
      ok = true;
      calls = flush s ++ d.calls;
    } in
    let skip : Outcome = record { state = s; ok = true; calls = [] } in
    subst
      (λ b.
        let r = if not b then skip else down in released k r.calls ≡ acquired k r.calls + holds k s)
      (sym h)
      (omega (
        arith,
        flush-IsBalanced k s,
        destroy-gives_all k s,
        released-append k (flush s) d.calls,
        acquired-append k (flush s) d.calls,
      ))

-- From a session that holds nothing, an init that succeeds, whatever the driver answers, then any
-- requests with any answers, failures included, then the shutdown: each library, session, bitstream
-- buffer, registered texture, mapped input and locked bitstream has been given back as often as it
-- was taken.
pub whole_life-gives_all :
    (k : Handle) (v : ℕ) (s : Impl) (dev : Bool) (cfg : Config) (cb : Bool) (a : InitAnswers)
    (qs : List Request)
    → IsIdle s
    → (init v s dev cfg cb a).ok ≡ true
    → let calls = whole_life (init v s dev cfg cb a) qs in acquired k calls ≡ released k calls
whole_life-gives_all k v s dev cfg cb a qs i ok =
    let o = init v s dev cfg cb a in
    let used = serve_all o.state qs in
    let down = shutdown used.state in
    let up = init-IsSetUp k v s dev cfg cb a i in
    let ready = serve_all-ready o.state qs (up.1.0 ∙ ok) in
    ground (
      arith,
      up.0,
      IsIdle-holds k s i,
      serve_all-IsBalanced k o.state qs,
      shutdown-gives_all k used.state ready,
      acquired-append k o.calls (used.calls ++ down.calls),
      released-append k o.calls (used.calls ++ down.calls),
      acquired-append k used.calls down.calls,
      released-append k used.calls down.calls,
    )

-- An init that fails, at any stage, leaves its handles with an encoder that the shutdown does not
-- touch: the shutdown makes no call, and each handle the init took is still held.
pub init-fails_holding :
    (k : Handle) (v : ℕ) (s : Impl) (dev : Bool) (cfg : Config) (cb : Bool) (a : InitAnswers)
    → IsIdle s
    → (init v s dev cfg cb a).ok ≡ false
    → let o = init v s dev cfg cb a in
      let down = shutdown o.state in
      (down.calls ≡ [])
      × ((down.state ≡ o.state)
          × ((released k o.calls ≡ 0) × (acquired k o.calls ≡ holds k down.state)))
init-fails_holding k v s dev cfg cb a i fails =
    let o = init v s dev cfg cb a in
    let up = init-IsSetUp k v s dev cfg cb a i in
    let idle = shutdown-idle o.state (up.1.0 ∙ fails) in
    (
      ap (λ d. d.calls) idle,
      (
        ap (λ d. d.state) idle,
        (
          up.1.1 fails,
          omega (arith, up.0, up.1.1 fails, IsIdle-holds k s i, ap (λ d. holds k d.state) idle),
        ),
      ),
    )
