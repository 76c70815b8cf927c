-- ===== src/Preview/Fences.antt =====
-- The fences between the draws and the copies in PreviewWidget::paintGL.
use reji_studio.Base.{
  ℕ, ◌||◌, ◌==◌, ◌≡◌, Bool, true, false, ◌&&◌, not, Option, none, some, List, [], ◌∷◌, ◌++◌, refl,
  arith, if◌then◌else◌, update, sym, subst, All,
}
use reji_studio.Optimizer.Lifecycle.{has}
use reji_studio.Preview.{
  PendingFrame, PreviewWidget, PaintAnswers, PaintCall, waited_semaphore, drew,
}
use reji_studio.Preview.Paint.{
  submit_d3d11_frame, poll, load_frame, upload_cpu, on_new_frame, signaled_by, cleared_by,
  wait_signal, render, paint_gl,
}
use reji_studio.Preview.Aimed.{IsBridge, IsPlacedOr, load-IsPlaced}
use reji_studio.Preview.Copying.{IsFenced-alike, copy_frame-IsSafe}
use reji_studio.Preview.Kept.{
  IsAlike, IsAlike-trans, same, poll-IsAlike, load-IsAlike, upload-IsAlike,
}
use reji_studio.Preview.Reading.{reading, IsUnread, IsPlaced, IsFenced, IsSafe, IsSafe-append}

-- The frames that arrive before a paint, and what the paint is answered.
pub record Turn : Type 0 where
  pub frames : List PendingFrame
  pub answers : PaintAnswers

unfoldable pub submit_all : PreviewWidget → List PendingFrame → PreviewWidget
unfolding submit_d3d11_frame
submit_all w [] = w
submit_all w (f ∷ fs) = submit_all (submit_d3d11_frame w f).0 fs

unfoldable pub paints : PreviewWidget → List Turn → PreviewWidget × List PaintCall
unfolding submit_all
paints w [] = (w, [])
paints w (t ∷ as_yet) =
    let o = paint_gl (submit_all w t.frames) t.answers in
    let rest = paints (o.0) as_yet in (rest.0, o.1 ++ rest.1)

module _ (index : ℕ → ℕ) where
  wait-cases :
      (b : Bool) (r : ℕ → Bool) (w v : PreviewWidget)
      → IsAlike w v
      → let o : PreviewWidget × List PaintCall =
          if b then (v, waited_semaphore w.current_pool_idx ∷ []) else (w, []) in
        IsUnread index r o.1 × (reading r o.1 ≡ r) × IsAlike w o.0
  wait-cases true r w v h = (tt, refl, h)
  wait-cases false r w v h = (tt, refl, same w)

  wait-IsSafe :
      (r : ℕ → Bool) (w : PreviewWidget)
      → IsFenced index r w
      → IsUnread index r (wait_signal w).1
        × (reading r (wait_signal w).1 ≡ r)
        × IsAlike w (wait_signal w).0
  unfolding wait_signal
  wait-IsSafe r w h =
      let slot = w.current_pool_idx in
      wait-cases
        (has (w.gl_interop_textures slot)
          && (w.has_wait_semaphore && (w.gl_sync_semaphores slot && signaled_by w.optimizer slot)))
        r w (record w { optimizer = cleared_by w.optimizer w.current_pool_idx })
        (record { waits = refl; makes = refl; fences = refl; pending = refl })

  put-has :
      (drawn : Bool) (r : ℕ → Bool) (fences : ℕ → Option ℕ) (slot i : ℕ) (makes : Bool)
      (fence : Option ℕ)
      → has fence ≡ true
      → makes ≡ true
      → (r i ≡ true → has (fences i) ≡ true)
      → (if drawn then update r slot true else r) i ≡ true
      → has (update fences slot (if makes then fence else none) i) ≡ true
  put-has true r fences slot i makes fence made on h e = ground (arith, made, on, h, e)
  put-has false r fences slot i makes fence made on h e = ground (arith, made, on, h, e)

  -- A fence is put after the draws of a slot.
  fence-IsFenced :
      (drawn : Bool) (r : ℕ → Bool) (w : PreviewWidget) (slot : ℕ) (fence : Option ℕ)
      → has fence ≡ true
      → IsFenced index r w
      → IsFenced index (if drawn then update r slot true else r) (record w {
        gl_draw_fences = update w.gl_draw_fences slot (if w.has_fence_sync then fence else none);
      })
  fence-IsFenced drawn r w slot fence made h = (
    h.0,
    h.1,
    (λ i e. put-has drawn r w.gl_draw_fences slot i w.has_fence_sync fence made h.1 (h.2 i) e),
    h.3,
  )

  draw-IsSafe :
      (drawn : Bool) (r : ℕ → Bool) (v : PreviewWidget) (slot : ℕ)
      → IsFenced index (if drawn then update r slot true else r) v
      → IsSafe index r (v, if drawn then drew slot ∷ [] else [])
  unfolding IsSafe
  draw-IsSafe true r v slot h = (tt, h)
  draw-IsSafe false r v slot h = (tt, h)

  none-or :
      (b : Bool) (r : ℕ → Bool) (p q : PreviewWidget × List PaintCall)
      → IsSafe index r p
      → IsSafe index r q
      → IsSafe index r (if b then p else q)
  none-or true r p q g h = g
  none-or false r p q g h = h

  render-IsSafe :
      (r : ℕ → Bool) (w : PreviewWidget) (fence : Option ℕ)
      → has fence ≡ true
      → IsFenced index r w
      → IsSafe index r (render w fence)
  unfolding render IsSafe
  render-IsSafe r w fence made h =
      let slot = w.current_pool_idx in
      let waited = wait_signal w in
      let interop = has (w.gl_interop_textures slot) in
      let done = record (waited.0) {
        gl_draw_fences =
            update (waited.0).gl_draw_fences slot (if w.has_fence_sync then fence else none);
      } in
      let quiet = wait-IsSafe r w h in
      let later = IsFenced-alike index r w (waited.0) quiet.2 h in
      let fenced = fence-IsFenced interop r (waited.0) slot fence made later in
      let kept =
        subst
          (λ b. IsFenced index (if interop then update r slot true else r) (record (waited.0) {
            gl_draw_fences = update (waited.0).gl_draw_fences slot (if b then fence else none);
          }))
          quiet.2.makes fenced in
      none-or (not interop && not (has w.tex_id)) r (w, [])
        (done, waited.1 ++ (if interop then drew slot ∷ [] else [])) (tt, h)
        (IsSafe-append index r w done waited.1 (if interop then drew slot ∷ [] else []) quiet.0 (
          subst (λ f. IsSafe index f (done, if interop then drew slot ∷ [] else [])) (sym quiet.1)
            (draw-IsSafe interop r done slot kept)))

  new_frame-IsSafe :
      (r : ℕ → Bool) (w : PreviewWidget) (a : PaintAnswers) (f : Option PendingFrame)
      → IsFenced index r w
      → IsPlacedOr index f
      → IsBridge index a
      → let p = on_new_frame w a f in IsSafe index r (p.widget, p.calls)
  unfolding on_new_frame IsSafe
  new_frame-IsSafe r w a none h placed ours = (tt, h)
  new_frame-IsSafe r w a (some f) h placed ours =
      copy_frame-IsSafe index r w f a w.optimizer h placed ours

  paint_gl-IsSafe :
      (r : ℕ → Bool) (w : PreviewWidget) (a : PaintAnswers)
      → has a.new_fence ≡ true
      → IsBridge index a
      → IsFenced index r w
      → IsSafe index r (paint_gl w a)
  unfolding paint_gl IsSafe
  paint_gl-IsSafe r w a made ours h =
      let polled = poll w a.reached in
      let loaded = load_frame polled in
      let ready = upload_cpu (loaded.0) a.new_tex in
      let alike = IsAlike-trans w polled ready (poll-IsAlike w a.reached) (
        IsAlike-trans polled (loaded.0) ready (load-IsAlike polled)
          (upload-IsAlike (loaded.0) a.new_tex)) in
      let o = on_new_frame ready a (loaded.1) in
      let drawn = render o.widget a.new_fence in
      let first =
        new_frame-IsSafe r ready a (loaded.1) (IsFenced-alike index r w ready alike h)
          (load-IsPlaced index polled
            (subst (λ p. IsPlaced index p) (sym (poll-IsAlike w a.reached).pending) h.3))
          ours in
      none-or o.goes_on r (drawn.0, o.calls ++ drawn.1) (o.widget, o.calls)
        (IsSafe-append index r o.widget (drawn.0) o.calls drawn.1 first.0
          (render-IsSafe (reading r o.calls) o.widget a.new_fence made first.1))
        first

  IsFenced-if :
      (b : Bool) (r : ℕ → Bool) (x y : PreviewWidget × Bool)
      → IsFenced index r (x.0)
      → IsFenced index r (y.0)
      → IsFenced index r (if b then x else y).0
  IsFenced-if true r x y p q = p
  IsFenced-if false r x y p q = q

  frames-IsFenced :
      (r : ℕ → Bool) (w : PreviewWidget) (fs : List PendingFrame)
      → All (λ f. IsPlaced index f) fs
      → IsFenced index r w
      → IsFenced index r (submit_all w fs)
  unfolding submit_all submit_d3d11_frame
  frames-IsFenced r w [] placed h = h
  frames-IsFenced r w (f ∷ fs) (one, rest) h =
      frames-IsFenced r (submit_d3d11_frame w f).0 fs rest (
        IsFenced-if
          ((not (has f.staging) || not (has f.target)) || ((f.frame_w == 0) || (f.frame_h == 0))) r
          (w, false) (record w { pending = f; frame_dirty = true }, true) h (h.0, h.1, h.2, one))

  -- What the bridge and OpenGL keep to in a turn.
  abbrev pub IsFair : Turn → Type 0
  IsFair t =
      All (λ f. IsPlaced index f) t.frames
      × (has t.answers.new_fence ≡ true)
      × IsBridge index t.answers

  paints-IsSafe :
      (r : ℕ → Bool) (w : PreviewWidget) (xs : List Turn)
      → All (λ t. IsFair t) xs
      → IsFenced index r w
      → IsSafe index r (paints w xs)
  unfolding paints IsSafe
  paints-IsSafe r w [] fair h = (tt, h)
  paints-IsSafe r w (t ∷ xs) (one, fair) h =
      let v = submit_all w t.frames in
      let o = paint_gl v t.answers in
      let rest = paints (o.0) xs in
      let first =
        paint_gl-IsSafe r v t.answers (one.1) (one.2) (frames-IsFenced r w t.frames (one.0) h) in
      IsSafe-append index r (o.0) (rest.0) o.1 rest.1 first.0
        (paints-IsSafe (reading r o.1) (o.0) xs fair first.1)

  -- For a widget with the functions for fences, over any turns of frames that arrive and a paint, in
  -- whatever slots and sizes, and whatever Vulkan answers: no copy is submitted that writes an image
  -- while a draw of that image may still read it, for between the two there is a successful wait on the
  -- fence of the draw. The image is the one whose handle is given to the copy. OpenGL must make every
  -- fence that is asked for, and the bridge must give for a slot the target image after the slot's own,
  -- with the frames and when the pool has been made anew.
  pub paints-IsUnread :
      (w : PreviewWidget) (xs : List Turn)
      → w.has_client_wait ≡ true
      → w.has_fence_sync ≡ true
      → IsPlaced index w.pending
      → All (λ t. IsFair t) xs
      → IsUnread index (λ i. false) (paints w xs).1
  unfolding IsSafe
  paints-IsUnread w xs waits makes placed fair =
      (paints-IsSafe (λ i. false) w xs fair
        (waits, makes, (λ i e. absurd (ground (arith, e))), placed)).0
