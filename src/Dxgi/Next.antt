-- ===== src/Dxgi/Next.antt =====
-- The frames of the duplication in capture_next of capture_dxgi.cpp.
use reji_studio.Base.{
  ℕ, ◌+◌, ◌≡◌, Bool, true, false, Option, none, some, List, [], ◌++◌, refl, arith, if◌then◌else◌,
  not, ap, sym, subst,
}
use reji_studio.Dxgi.{DxgiCall, DxgiCaptureSession, CaptureFrame}
use reji_studio.Dxgi.Session.{reinit, release_frame, acquire}
use reji_studio.Dxgi.Transfer.{
  GpuResourceManager, TransferAnswers, upload, transfer_by_cpu, transfer,
}
use reji_studio.Dxgi.Pipeline.{DxgiCapturePipeline}
use reji_studio.Dxgi.Preview.{PreviewAnswers, init_preview_staging, ensure_preview_staging}
use reji_studio.Dxgi.Frame.{
  NextAnswers, Captured, returned, faults, Shared, go_on, drop_frame, in_wait, copy_keyed,
  copy_flushed, copy_shared, stage, let_go, after_shared, on_frame, acquire_on, with_parts,
  capture_next,
}
use reji_studio.Dxgi.Held.{
  owned, owned_by, IsBalanced, IsQuiet, IsBalanced-append, IsQuiet-append, IsBalanced-quiet,
  reinit-IsBalanced, release_frame-IsBalanced, acquire-IsBalanced,
}

transfer-IsQuiet :
    (m : GpuResourceManager) (src : ℕ) (a : TransferAnswers) → IsQuiet (transfer m src a).1
unfolding transfer transfer_by_cpu upload
transfer-IsQuiet m src a = ground arith

copy_shared-IsQuiet :
    (rounds : ℕ) (p : DxgiCapturePipeline) (tex : ℕ) (a : NextAnswers)
    → IsQuiet (copy_shared rounds p tex a).1
unfolding copy_shared copy_keyed copy_flushed
copy_shared-IsQuiet rounds p tex a = ground arith

stage-IsQuiet : (p : DxgiCapturePipeline) (tex : ℕ) → IsQuiet (stage p tex).1
unfolding stage
stage-IsQuiet p tex = ground arith

let_go-IsBalanced :
    (p : DxgiCapturePipeline) (s : DxgiCaptureSession) (tex : Option ℕ) (before : ℕ)
    (calls : List DxgiCall)
    → IsBalanced before calls (owned s)
    → IsBalanced before (let_go p s tex calls).calls (owned_by (let_go p s tex calls).state.capture)
unfolding let_go
let_go-IsBalanced p s tex before calls h =
    IsBalanced-append before calls (owned s) (release_frame s).1 (owned (release_frame s).0) h
      (release_frame-IsBalanced s)

after_shared-IsBalanced :
    (p : DxgiCapturePipeline) (s : DxgiCaptureSession) (tex : ℕ) (to : Option ℕ) (before : ℕ)
    (calls : List DxgiCall) (c : Shared)
    → IsBalanced before calls (owned s)
    → let o = after_shared p s tex to calls c in
      IsBalanced before o.calls (owned_by o.state.capture)
unfolding after_shared
after_shared-IsBalanced p s tex to before calls go_on h =
    let_go-IsBalanced (stage p tex).0 s to before (calls ++ (stage p tex).1) (
      IsBalanced-append before calls (owned s) (stage p tex).1 (owned s) h
        (IsBalanced-quiet (owned s) (stage p tex).1 (stage-IsQuiet p tex)))
after_shared-IsBalanced p s tex to before calls drop_frame h =
    let_go-IsBalanced p s none before calls h
after_shared-IsBalanced p s tex to before calls in_wait h = h

on_frame-IsBalanced :
    (rounds : ℕ) (p : DxgiCapturePipeline) (m : GpuResourceManager) (a : NextAnswers)
    (s : DxgiCaptureSession) (frame : Option CaptureFrame) (before : ℕ) (calls : List DxgiCall)
    → IsBalanced before calls (owned s)
    → let o = on_frame rounds p m a s frame calls in
      IsBalanced before o.calls (owned_by o.state.capture)
unfolding on_frame
on_frame-IsBalanced rounds p m a s none before calls h = h
on_frame-IsBalanced rounds p m a s (some f) before calls h =
    let sent = transfer m f.texture a.transferred in
    let shared = copy_shared rounds p f.texture a in
    after_shared-IsBalanced p s f.texture (sent.0) before (calls ++ (sent.1 ++ shared.1)) (shared.0)
      (IsBalanced-append before calls (owned s) (sent.1 ++ shared.1) (owned s) h (
        IsBalanced-quiet (owned s) (sent.1 ++ shared.1) (
          IsQuiet-append (sent.1) (shared.1) (transfer-IsQuiet m f.texture a.transferred)
            (copy_shared-IsQuiet rounds p f.texture a))))

IsBalanced-either :
    (first : Bool) (before : ℕ) (x y : Captured)
    → IsBalanced before x.calls (owned_by x.state.capture)
    → IsBalanced before y.calls (owned_by y.state.capture)
    → let o = if first then x else y in IsBalanced before o.calls (owned_by o.state.capture)
IsBalanced-either true before x y p q = p
IsBalanced-either false before x y p q = q

acquire_on-IsBalanced :
    (rounds : ℕ) (p : DxgiCapturePipeline) (m : GpuResourceManager) (a : NextAnswers)
    (s : DxgiCaptureSession) (before : ℕ) (calls : List DxgiCall)
    → IsBalanced before calls (owned s)
    → let o = acquire_on rounds p m a s calls in
      IsBalanced before o.calls (owned_by o.state.capture)
unfolding acquire_on
acquire_on-IsBalanced rounds p m a s before calls h =
    let o = acquire s a.next in
    let paid =
      IsBalanced-append before calls (owned s) o.calls (owned o.session) h
        (acquire-IsBalanced s a.next) in
    IsBalanced-either (not o.faulted) before
      (on_frame rounds p m a o.session o.frame (calls ++ o.calls))
      (record {
        state = record p { capture = some o.session };
        result = faults;
        calls = calls ++ o.calls;
      })
      (on_frame-IsBalanced rounds p m a o.session o.frame before (calls ++ o.calls) paid) paid

-- The three ways on from a session: as it is, not made again, made again.
IsBalanced-ways :
    (lost made : Bool) (before : ℕ) (straight stopped again : Captured)
    → IsBalanced before straight.calls (owned_by straight.state.capture)
    → IsBalanced before stopped.calls (owned_by stopped.state.capture)
    → IsBalanced before again.calls (owned_by again.state.capture)
    → let o = if not lost then straight else if not made then stopped else again in
      IsBalanced before o.calls (owned_by o.state.capture)
IsBalanced-ways false made before straight stopped again p q r = p
IsBalanced-ways true false before straight stopped again p q r = q
IsBalanced-ways true true before straight stopped again p q r = r

with_parts-IsBalanced :
    (rounds : ℕ) (p : DxgiCapturePipeline) (a : NextAnswers) (s : Option DxgiCaptureSession)
    (m : Option GpuResourceManager)
    → p.capture ≡ s
    → let o = with_parts rounds p a s m in
      IsBalanced (owned_by s) o.calls (owned_by o.state.capture)
unfolding with_parts
with_parts-IsBalanced rounds p a (some s) (some m) e =
    let again = reinit s a.duplication in
    IsBalanced-ways s.needs_reinit (again.1) (owned s) (acquire_on rounds p m a s [])
      (record {
        state = record p { capture = some (again.0) };
        result = returned none;
        calls = again.2;
      })
      (acquire_on rounds p m a (again.0) (again.2))
      (acquire_on-IsBalanced rounds p m a s (owned s) [] refl) (reinit-IsBalanced s a.duplication)
      (acquire_on-IsBalanced rounds p m a (again.0) (owned s) (again.2)
        (reinit-IsBalanced s a.duplication))
with_parts-IsBalanced rounds p a (some s) none e = ap (λ c. 0 + owned_by c) (sym e)
with_parts-IsBalanced rounds p a none (some m) e = ap (λ c. 0 + owned_by c) (sym e)
with_parts-IsBalanced rounds p a none none e = ap (λ c. 0 + owned_by c) (sym e)

pub ensure-keeps :
    (p : DxgiCapturePipeline) (a : PreviewAnswers)
    → (ensure_preview_staging p a).capture ≡ p.capture
unfolding ensure_preview_staging init_preview_staging
ensure-keeps p a = ground arith

pub ensure-keeps_rest :
    (p : DxgiCapturePipeline) (a : PreviewAnswers)
    → ((ensure_preview_staging p a).initialized ≡ p.initialized)
      × ((ensure_preview_staging p a).resource_mgr ≡ p.resource_mgr)
unfolding ensure_preview_staging init_preview_staging
ensure-keeps_rest p a = ground arith

pub capture_next-IsBalanced :
    (rounds : ℕ) (p : DxgiCapturePipeline) (a : NextAnswers)
    → let o = capture_next rounds p a in
      IsBalanced (owned_by p.capture) o.calls (owned_by o.state.capture)
unfolding capture_next
capture_next-IsBalanced rounds p a =
    let q = ensure_preview_staging p a.preview in
    let same = ap owned_by (ensure-keeps p a.preview) in
    let busy = with_parts rounds q a q.capture q.resource_mgr in
    IsBalanced-either (not q.initialized) (owned_by p.capture)
      (record { state = q; result = returned none; calls = [] }) busy (ap (λ n. 0 + n) (sym same))
      (subst (λ n. IsBalanced n busy.calls (owned_by busy.state.capture)) same
        (with_parts-IsBalanced rounds q a q.capture q.resource_mgr refl))
