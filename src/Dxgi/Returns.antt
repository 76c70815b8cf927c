-- ===== src/Dxgi/Returns.antt =====
-- The returns of capture_next in capture_dxgi.cpp.
use reji_studio.Base.{
  ℕ, ◌≤◌, ◌<◌, ◌≡◌, Bool, true, false, ◌&&◌, ◌||◌, Option, none, some, List, [], ◌++◌, refl, arith,
  if◌then◌else◌, not, ap, sym, subst, ◌∙◌,
}
use reji_studio.Dxgi.{DxgiCall, Rect, DxgiCaptureSession, CaptureFrame}
use reji_studio.Dxgi.Session.{
  DuplicationAnswers, duplicate, on_output, create_duplication, give_back, reinit, release_frame,
  AcquireAnswer, wait_timeout, access_lost, device_removed, acquire_failed, next_frame, keep_frame,
  on_answer, acquire,
}
use reji_studio.Dxgi.Transfer.{GpuResourceManager}
use reji_studio.Dxgi.Spin.{
  SpinEnd, copy_done, fence_lost, spin_timeout, spinning, spin_loop, Ended, IsLate, spin_loop-Ended,
}
use reji_studio.Dxgi.Pipeline.{DxgiCapturePipeline}
use reji_studio.Dxgi.Preview.{ensure_preview_staging}
use reji_studio.Dxgi.Frame.{
  NextAnswers, Captured, Result, returned, faults, Shared, go_on, drop_frame, in_wait, of_spin,
  copy_keyed, copy_flushed, copy_shared, let_go, after_shared, on_frame, acquire_on, with_parts,
  capture_next,
}
use reji_studio.Dxgi.Held.{reinit-frees, release_frame-frees}
use reji_studio.Dxgi.Next.{ensure-keeps, ensure-keeps_rest}

abbrev pub holds : Option DxgiCaptureSession → Bool
holds none = false
holds (some s) = s.frame_held

abbrev pub IsReturned : Result → Type 0
IsReturned (returned tex) = Unit
IsReturned _ = ⊥

-- A session that has a duplication, unless its acquire does not ask one or it is to be made again.
abbrev pub is_live : DxgiCaptureSession → Bool
is_live s = not s.initialized || (s.needs_reinit || s.has_duplication)

-- The parts that capture_next goes through without a test are there.
abbrev pub has_parts : Option DxgiCaptureSession → Option GpuResourceManager → Bool
has_parts (some s) (some m) = is_live s
has_parts _ _ = false

abbrev pub is_whole : DxgiCapturePipeline → Bool
is_whole p = not p.initialized || has_parts p.capture p.resource_mgr

-- A call that has returned, with no frame held.
abbrev pub IsAtRest : Captured → Type 0
IsAtRest o = IsReturned o.result × (holds o.state.capture ≡ false)

-- Among the rounds of the wait there is one, after the busy ones, at which 100 ms have passed.
abbrev pub HasTime : ℕ → NextAnswers → Type 0
HasTime rounds a = (n : ℕ) × (4096 ≤ n) × (n < rounds) × IsLate a.start (a.polls n).tick

IsGone : Shared → Type 0
IsGone in_wait = ⊥
IsGone _ = Unit

of_spin-IsGone : (e : SpinEnd) → Ended e → IsGone (of_spin e)
unfolding IsGone
of_spin-IsGone copy_done h = tt
of_spin-IsGone fence_lost h = tt
of_spin-IsGone spin_timeout h = tt
of_spin-IsGone spinning h = h

fence-Ended :
    (fence : Bool) (rounds : ℕ) (a : NextAnswers)
    → HasTime rounds a
    → Ended (if fence then spin_loop rounds 0 a.start a.polls else copy_done)
fence-Ended false rounds a h = tt
fence-Ended true rounds a (n, busy, inside, late) =
    spin_loop-Ended rounds 0 a.start a.polls n (omega arith) (omega arith) busy late

IsGone-ways :
    (held keyed : Bool) (x y : Shared × List DxgiCall)
    → IsGone x.0
    → IsGone y.0
    → IsGone (if not held then (go_on, []) else if keyed then x else y).0
unfolding IsGone
IsGone-ways false keyed x y p q = tt
IsGone-ways true true x y p q = p
IsGone-ways true false x y p q = q

copy_keyed-IsGone :
    (p : DxgiCapturePipeline) (tex : ℕ) (a : NextAnswers) → IsGone (copy_keyed p tex a).0
unfolding IsGone copy_keyed
copy_keyed-IsGone p tex a = ground arith

copy_shared-IsGone :
    (rounds : ℕ) (p : DxgiCapturePipeline) (tex : ℕ) (a : NextAnswers)
    → HasTime rounds a
    → IsGone (copy_shared rounds p tex a).0
unfolding copy_shared copy_flushed
copy_shared-IsGone rounds p tex a h =
    IsGone-ways _ (p.use_keyed_mutex && p.keyed_mutex_shared) (copy_keyed p tex a)
      (copy_flushed rounds p tex a) (copy_keyed-IsGone p tex a)
      (of_spin-IsGone _ (fence-Ended p.amd_copy_fence rounds a h))

after_shared-IsAtRest :
    (p : DxgiCapturePipeline) (s : DxgiCaptureSession) (tex : ℕ) (to : Option ℕ)
    (calls : List DxgiCall) (c : Shared)
    → IsGone c
    → IsAtRest (after_shared p s tex to calls c)
unfolding after_shared let_go IsGone
after_shared-IsAtRest p s tex to calls go_on h = (tt, release_frame-frees s)
after_shared-IsAtRest p s tex to calls drop_frame h = (tt, release_frame-frees s)
after_shared-IsAtRest p s tex to calls in_wait h = absurd h

on_frame-IsAtRest :
    (rounds : ℕ) (p : DxgiCapturePipeline) (m : GpuResourceManager) (a : NextAnswers)
    (s : DxgiCaptureSession) (frame : Option CaptureFrame) (calls : List DxgiCall)
    → HasTime rounds a
    → (frame ≡ none → s.frame_held ≡ false)
    → IsAtRest (on_frame rounds p m a s frame calls)
unfolding on_frame
on_frame-IsAtRest rounds p m a s none calls time h = (tt, h refl)
on_frame-IsAtRest rounds p m a s (some f) calls time h =
    after_shared-IsAtRest p s f.texture _ _ _ (copy_shared-IsGone rounds p f.texture a time)

acquire_idle :
    (s : DxgiCaptureSession) (answer : AcquireAnswer)
    → s.frame_held ≡ false
    → (acquire s answer).frame ≡ none
    → (acquire s answer).session.frame_held ≡ false
unfolding acquire on_answer keep_frame release_frame
acquire_idle s wait_timeout h e = ground arith
acquire_idle s access_lost h e = ground arith
acquire_idle s device_removed h e = ground arith
acquire_idle s acquire_failed h e = ground arith
acquire_idle s (next_frame n none t) h e = ground arith
acquire_idle s (next_frame n (some tex) t) h e = ground arith

-- Without a duplication there is a fault only where one is asked for.
acquire-returns :
    (s : DxgiCaptureSession) (answer : AcquireAnswer)
    → is_live s ≡ true
    → s.needs_reinit ≡ false
    → (acquire s answer).faulted ≡ false
unfolding acquire on_answer keep_frame
acquire-returns s wait_timeout h e = ground (arith, h, e)
acquire-returns s access_lost h e = ground (arith, h, e)
acquire-returns s device_removed h e = ground (arith, h, e)
acquire-returns s acquire_failed h e = ground (arith, h, e)
acquire-returns s (next_frame n none t) h e = ground (arith, h, e)
acquire-returns s (next_frame n (some tex) t) h e = ground (arith, h, e)

acquire_on-IsAtRest :
    (rounds : ℕ) (p : DxgiCapturePipeline) (m : GpuResourceManager) (a : NextAnswers)
    (s : DxgiCaptureSession) (calls : List DxgiCall)
    → HasTime rounds a
    → s.frame_held ≡ false
    → is_live s ≡ true
    → s.needs_reinit ≡ false
    → IsAtRest (acquire_on rounds p m a s calls)
unfolding acquire_on
acquire_on-IsAtRest rounds p m a s calls time h live fine =
    let o = acquire s a.next in
    let done = on_frame rounds p m a o.session o.frame (calls ++ o.calls) in
    let stuck : Captured = record {
      state = record p { capture = some o.session };
      result = faults;
      calls = calls ++ o.calls;
    } in
    subst (λ f. IsAtRest (if not f then done else stuck)) (sym (acquire-returns s a.next live fine))
      (on_frame-IsAtRest rounds p m a o.session o.frame (calls ++ o.calls) time
        (acquire_idle s a.next h))

made_on :
    (s : DxgiCaptureSession) (a : DuplicationAnswers) (o : Option Rect)
    → s.needs_reinit ≡ false
    → (on_output s a o).1 ≡ true
    → (is_live (on_output s a o).0 ≡ true) × ((on_output s a o).0.needs_reinit ≡ false)
unfolding on_output duplicate
made_on s a none h made = absurd (ground (arith, made))
made_on s a (some rect) h made = (ground (arith, made), ground (arith, h))

reinit-made :
    (s : DxgiCaptureSession) (a : DuplicationAnswers)
    → (reinit s a).1 ≡ true
    → (is_live (reinit s a).0 ≡ true) × ((reinit s a).0.needs_reinit ≡ false)
unfolding reinit create_duplication
reinit-made s a h =
    made_on
      (record (give_back s).0 {
        has_duplication = false;
        frame_tex = none;
        frame_held = false;
        needs_reinit = false;
      })
      a a.output refl h

IsAtRest-ways :
    (lost made : Bool) (straight stopped again : Captured)
    → (lost ≡ false → IsAtRest straight)
    → IsAtRest stopped
    → (made ≡ true → IsAtRest again)
    → IsAtRest (if not lost then straight else if not made then stopped else again)
IsAtRest-ways false made straight stopped again p q r = p refl
IsAtRest-ways true false straight stopped again p q r = q
IsAtRest-ways true true straight stopped again p q r = r refl

with_parts-IsAtRest :
    (rounds : ℕ) (p : DxgiCapturePipeline) (a : NextAnswers) (s : Option DxgiCaptureSession)
    (m : Option GpuResourceManager)
    → HasTime rounds a
    → holds s ≡ false
    → has_parts s m ≡ true
    → IsAtRest (with_parts rounds p a s m)
unfolding with_parts
with_parts-IsAtRest rounds p a (some s) (some m) time h live =
    let again = reinit s a.duplication in
    IsAtRest-ways s.needs_reinit (again.1) (acquire_on rounds p m a s [])
      (record {
        state = record p { capture = some (again.0) };
        result = returned none;
        calls = again.2;
      })
      (acquire_on rounds p m a (again.0) (again.2))
      (λ fine. acquire_on-IsAtRest rounds p m a s [] time h live fine)
      (tt, reinit-frees s a.duplication)
      (λ made.
        let good = reinit-made s a.duplication made in
        acquire_on-IsAtRest rounds p m a (again.0) (again.2) time (reinit-frees s a.duplication)
          (good.0) (good.1))
with_parts-IsAtRest rounds p a (some s) none time h live = absurd (ground (arith, live))
with_parts-IsAtRest rounds p a none (some m) time h live = absurd (ground (arith, live))
with_parts-IsAtRest rounds p a none none time h live = absurd (ground (arith, live))

IsAtRest-if :
    (ready : Bool) (idle busy : Captured)
    → IsAtRest idle
    → (ready ≡ true → IsAtRest busy)
    → IsAtRest (if not ready then idle else busy)
IsAtRest-if false idle busy p q = p
IsAtRest-if true idle busy p q = q refl

parts_there : (ready there : Bool) → (not ready || there) ≡ true → ready ≡ true → there ≡ true
parts_there ready there h e = ground (arith, h, e)

-- In any state in which no frame of the duplication is held and which, if it is initialised, has its
-- parts, with a duplication unless it is about to be made again, and whatever DXGI, D3D11 and the
-- preview answer: capture_next returns, through no null pointer, and again no frame is held. The
-- rounds given to the wait for the copy must include one, after its 4096 busy ones, at which the clock
-- has moved on by 100 ms.
pub capture_next-IsAtRest :
    (rounds : ℕ) (p : DxgiCapturePipeline) (a : NextAnswers)
    → HasTime rounds a
    → holds p.capture ≡ false
    → is_whole p ≡ true
    → IsAtRest (capture_next rounds p a)
unfolding capture_next
capture_next-IsAtRest rounds p a time h whole =
    let q = ensure_preview_staging p a.preview in
    let same = ensure-keeps p a.preview in
    let rest = ensure-keeps_rest p a.preview in
    let whole_q : is_whole q ≡ true = rw (rest.0, same, rest.1) whole in
    IsAtRest-if q.initialized (record { state = q; result = returned none; calls = [] })
      (with_parts rounds q a q.capture q.resource_mgr) (tt, ap holds same ∙ h)
      (λ ready.
        with_parts-IsAtRest rounds q a q.capture q.resource_mgr time (ap holds same ∙ h)
          (parts_there q.initialized (has_parts q.capture q.resource_mgr) whole_q ready))
