-- ===== src/Dxgi/Stranded.antt =====
-- A capture session that capture_dxgi.cpp fails to make again.
use reji_studio.Base.{
  ℕ, ◌≡◌, true, false, not, Option, none, some, [], ◌∷◌, refl, arith, ap, ◌∙◌, if◌then◌else◌,
}
use reji_studio.Dxgi.{null_call, Rect, DxgiCaptureSession}
use reji_studio.Dxgi.Session.{
  DuplicationAnswers, duplicate, on_output, create_duplication, give_back, reinit, release_frame,
  acquire,
}
use reji_studio.Dxgi.Transfer.{GpuResourceManager}
use reji_studio.Dxgi.Pipeline.{DxgiCapturePipeline}
use reji_studio.Dxgi.Preview.{ensure_preview_staging}
use reji_studio.Dxgi.Frame.{
  NextAnswers, Captured, returned, faults, on_frame, acquire_on, with_parts, capture_next,
}
use reji_studio.Dxgi.Next.{ensure-keeps, ensure-keeps_rest}

-- No duplication, and nothing that says so.
record IsStranded (s : DxgiCaptureSession) : Type 0 where
  starts : s.initialized ≡ true
  looks_good : s.needs_reinit ≡ false
  empty_handed : s.frame_held ≡ false
  no_duplication : s.has_duplication ≡ false

duplicate-IsStranded :
    (s : DxgiCaptureSession) (a : DuplicationAnswers) (o : Option Rect)
    → IsStranded s
    → (on_output s a o).1 ≡ false
    → IsStranded (on_output s a o).0
unfolding on_output duplicate
duplicate-IsStranded s a none h e = h
duplicate-IsStranded s a (some rect) h e = record {
  starts = ground (arith, h.starts);
  looks_good = ground (arith, h.looks_good);
  empty_handed = ground (arith, h.empty_handed);
  no_duplication = ground (arith, h.no_duplication, e);
}

give_back-starts :
    (s : DxgiCaptureSession) → s.initialized ≡ true → (give_back s).0.initialized ≡ true
unfolding give_back
give_back-starts s h = ground arith

reinit-IsStranded :
    (s : DxgiCaptureSession) (a : DuplicationAnswers)
    → s.initialized ≡ true
    → (reinit s a).1 ≡ false
    → IsStranded (reinit s a).0
unfolding reinit create_duplication
reinit-IsStranded s a h e =
    duplicate-IsStranded
      (record (give_back s).0 {
        has_duplication = false;
        frame_tex = none;
        frame_held = false;
        needs_reinit = false;
      })
      a a.output
      (record {
        starts = give_back-starts s h;
        looks_good = refl;
        empty_handed = refl;
        no_duplication = refl;
      })
      e

acquire-null :
    (rounds : ℕ) (p : DxgiCapturePipeline) (m : GpuResourceManager) (a : NextAnswers)
    (s : DxgiCaptureSession)
    → IsStranded s
    → let o = with_parts rounds p a (some s) (some m) in
      (o.result ≡ faults) × (o.calls ≡ null_call ∷ [])
unfolding with_parts acquire_on on_frame acquire release_frame
acquire-null rounds p m a s h =
    rw (h.looks_good, h.starts, h.empty_handed, h.no_duplication) (refl, refl)

module _ (rounds : ℕ) (p : DxgiCapturePipeline) (a : NextAnswers) (s : DxgiCaptureSession)
    (m : GpuResourceManager) where
  next-with_parts :
      p.initialized ≡ true
      → p.capture ≡ some s
      → p.resource_mgr ≡ some m
      → capture_next rounds p a
        ≡ with_parts rounds (ensure_preview_staging p a.preview) a (some s) (some m)
  unfolding capture_next
  next-with_parts ready c r =
      rw
        (
          (ensure-keeps_rest p a.preview).0 ∙ ready,
          ensure-keeps p a.preview ∙ c,
          (ensure-keeps_rest p a.preview).1 ∙ r,
        )
        refl

  parts-failed :
      s.needs_reinit ≡ true
      → (reinit s a.duplication).1 ≡ false
      → with_parts rounds p a (some s) (some m) ≡ record {
        state = record p { capture = some (reinit s a.duplication).0 };
        result = returned none;
        calls = (reinit s a.duplication).2;
      }
  unfolding with_parts
  parts-failed lost fails =
      let again = reinit s a.duplication in
      let stopped : Captured = record {
        state = record p { capture = some (again.0) };
        result = returned none;
        calls = again.2;
      } in
      let on_again = acquire_on rounds p m a (again.0) (again.2) in
      ap
        (λ b.
          if not b
          then acquire_on rounds p m a s []
          else if not (again.1)
          then stopped
          else on_again)
        lost
      ∙ ap (λ b. if not b then stopped else on_again) fails

-- When a capture pipeline has lost its duplication and capture_next fails to make it again, the call
-- returns null, and the next one, whatever it is answered, calls AcquireNextFrame through the null
-- duplication_ and nothing else: it faults instead of returning.
pub failed_reinit_strands :
    (rounds : ℕ) (p : DxgiCapturePipeline) (a b : NextAnswers) (s : DxgiCaptureSession)
    (m : GpuResourceManager)
    → p.initialized ≡ true
    → p.capture ≡ some s
    → p.resource_mgr ≡ some m
    → s.initialized ≡ true
    → s.needs_reinit ≡ true
    → (reinit s a.duplication).1 ≡ false
    → ((capture_next rounds p a).result ≡ returned none)
      × ((capture_next rounds (capture_next rounds p a).state b).result ≡ faults)
      × ((capture_next rounds (capture_next rounds p a).state b).calls ≡ null_call ∷ [])
failed_reinit_strands rounds p a b s m ready c r live lost fails =
    let q = ensure_preview_staging p a.preview in
    let t = (reinit s a.duplication).0 in
    let left = record q { capture = some t } in
    let first = next-with_parts rounds p a s m ready c r ∙ parts-failed rounds q a s m lost fails in
    let second =
      next-with_parts rounds left b t m ((ensure-keeps_rest p a.preview).0 ∙ ready) refl
        ((ensure-keeps_rest p a.preview).1 ∙ r) in
    let null =
      acquire-null rounds (ensure_preview_staging left b.preview) m b t
        (reinit-IsStranded s a.duplication live fails) in
    (
      ap Captured.result first,
      ap (λ o. (capture_next rounds o.state b).result) first ∙ ap Captured.result second ∙ null.0,
      ap (λ o. (capture_next rounds o.state b).calls) first ∙ ap Captured.calls second ∙ null.1,
    )
