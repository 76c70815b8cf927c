-- ===== src/Preview/Copying.antt =====
-- The copies of PreviewWidget::paintGL, and the waits before them.
use reji_studio.Base.{
  ℕ, ◌≡◌, inl, inr, Bool, true, false, ◌&&◌, not, Option, none, some, List, [], ◌∷◌, refl, arith,
  if◌then◌else◌, update, ap, sym, subst, ◌∙◌, Bool-cases,
}
use reji_studio.Optimizer.{GpuCopyOptimizer}
use reji_studio.Optimizer.Lifecycle.{has}
use reji_studio.Optimizer.Submit.{Submission, execute_copy}
use reji_studio.Preview.{PendingFrame, PreviewWidget, PaintAnswers, PaintCall, passed_fence, wrote}
use reji_studio.Preview.Paint.{
  fit_pool, fit_texture, import_target, Painted, written, request_of, after_copy, has_fence,
  copy_frame,
}
use reji_studio.Preview.Aimed.{IsBridge, IsAimed, sent-IsAimed, fitted-IsTarget}
use reji_studio.Preview.Kept.{IsAlike, IsAlike-trans, pool-IsAlike, texture-IsAlike, import-IsAlike}
use reji_studio.Preview.Reading.{reading, IsPlaced, IsFenced, IsSafe, IsSafe-append}

module _ (index : ℕ → ℕ) where
  pub IsFenced-alike :
      (r : ℕ → Bool) (w v : PreviewWidget) → IsAlike w v → IsFenced index r w → IsFenced index r v
  IsFenced-alike r w v h f = (
    h.waits ∙ f.0,
    h.makes ∙ f.1,
    (λ i e. ap (λ g. has (g i)) h.fences ∙ f.2 i e),
    subst (λ p. IsPlaced index p) (sym h.pending) f.3,
  )

  update-same : (r : ℕ → Bool) (i : ℕ) (b : Bool) → update r i b i ≡ b
  update-same r i b = ground arith

  update-kept : (r : ℕ → Bool) (g i : ℕ) → update r g false i ≡ true → r i ≡ true
  update-kept r g i e = ground (arith, e)

  passed-IsFenced :
      (r : ℕ → Bool) (w : PreviewWidget) (g : ℕ)
      → IsFenced index r w
      → IsFenced index (update r g false) w
  passed-IsFenced r w g h = (h.0, h.1, (λ i e. h.2 i (update-kept r g i e)), h.3)

  -- The waits before a copy: none, or one for the image it writes.
  abbrev waits_for : Bool → ℕ → List PaintCall
  waits_for fenced g = if fenced then passed_fence g ∷ [] else []

  waits-IsSafe :
      (fenced : Bool) (r : ℕ → Bool) (w : PreviewWidget) (g : ℕ)
      → IsFenced index r w
      → IsSafe index r (w, waits_for fenced g)
  unfolding IsSafe
  waits-IsSafe true r w g h = (tt, passed-IsFenced r w g h)
  waits-IsSafe false r w g h = (tt, h)

  write-IsFree :
      (fenced : Bool) (r : ℕ → Bool) (w : PreviewWidget) (g : ℕ)
      → IsFenced index r w
      → has_fence w g ≡ fenced
      → reading r (waits_for fenced g) g ≡ false
  unfolding has_fence
  write-IsFree true r w g h e = update-same r g false
  write-IsFree false r w g h e = elim (Bool-cases (r g)) [
    | inl read ↦ let up = h.2 g read in let on = h.0 in absurd (ground (arith, e, up, on))
    | inr free ↦ free
  ]

  after_copy-IsSafe :
      (fenced : Bool) (r : ℕ → Bool) (w : PreviewWidget) (f : PendingFrame) (a : PaintAnswers)
      (o : GpuCopyOptimizer) (result : Option Submission)
      → IsFenced index r w
      → has_fence w (written f.slot) ≡ fenced
      → IsAimed index f.slot result
      → let p = after_copy w f a o (waits_for fenced (written f.slot)) result in
        IsSafe index r (p.widget, p.calls)
  unfolding after_copy IsSafe written
  after_copy-IsSafe fenced r w f a o none h e aim =
      let calls = waits_for fenced (written f.slot) in
      let safe = waits-IsSafe fenced r w (written f.slot) h in
      (
        safe.0,
        IsFenced-alike (reading r calls) w (record w { optimizer = some o })
            (record { waits = refl; makes = refl; fences = refl; pending = refl }) safe.1,
      )
  after_copy-IsSafe fenced r w f a o (some sub) h e aim =
      let g = written f.slot in
      let calls = waits_for fenced g in
      let safe = waits-IsSafe fenced r w g h in
      let set = record w { optimizer = some o; gl_target_image = some sub.image } in
      let done = record (import_target set f a) {
        timeline_semaphore = sub.semaphore;
        expected_value = sub.value;
        has_pending_copy = true;
      } in
      let alike = import-IsAlike set f a in
      IsSafe-append index r w done calls (wrote sub.image ∷ []) safe.0 (
        (ap (reading r calls) aim ∙ write-IsFree fenced r w g h e, tt),
        IsFenced-alike (reading r calls) w done
            (record {
              waits = alike.waits;
              makes = alike.makes;
              fences = alike.fences;
              pending = alike.pending;
            })
            safe.1,
      )

  stop-or :
      (blocked : Bool) (r : ℕ → Bool) (p q : Painted)
      → IsSafe index r (p.widget, p.calls)
      → IsSafe index r (q.widget, q.calls)
      → let o = if blocked then p else q in IsSafe index r (o.widget, o.calls)
  stop-or true r p q g h = g
  stop-or false r p q g h = h

  pub copy_frame-IsSafe :
      (r : ℕ → Bool) (w : PreviewWidget) (f : PendingFrame) (a : PaintAnswers)
      (o : Option GpuCopyOptimizer)
      → IsFenced index r w
      → IsPlaced index f
      → IsBridge index a
      → let p = copy_frame w f a o in IsSafe index r (p.widget, p.calls)
  unfolding copy_frame IsSafe request_of
  copy_frame-IsSafe r w f a none h placed ours = (tt, h)
  copy_frame-IsSafe r w f a (some o) h placed ours =
      let fitted = fit_pool w f a in
      let sized = fit_texture (fitted.0) f a.new_tex in
      let ready = record sized { current_pool_idx = f.slot } in
      let fenced = has_fence ready (written f.slot) in
      let sent = execute_copy o (request_of ready f (fitted.1) a) a.copy in
      let alike =
        IsAlike-trans w (fitted.0) sized (pool-IsAlike w f a)
          (texture-IsAlike (fitted.0) f a.new_tex) in
      let h2 =
        IsFenced-alike r w ready
          (record {
            waits = alike.waits;
            makes = alike.makes;
            fences = alike.fences;
            pending = alike.pending;
          })
          h in
      stop-or (fenced && not a.fence_signaled) r
        (record { widget = ready; goes_on = false; calls = [] })
        (after_copy ready f a sent.state (waits_for fenced (written f.slot)) sent.result) (tt, h2)
        (after_copy-IsSafe fenced r ready f a sent.state sent.result h2 refl (
          sent-IsAimed index o (request_of ready f (fitted.1) a) a.copy
            (fitted-IsTarget index w f a placed ours)))
