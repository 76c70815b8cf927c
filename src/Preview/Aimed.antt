-- ===== src/Preview/Aimed.antt =====
-- The image that a copy of PreviewWidget::paintGL writes, by what the bridge gives.
use reji_studio.Base.{
  ℕ, ◌+◌, ◌%◌, ◌==◌, ◌≡◌, inl, inr, Bool, true, false, ◌&&◌, not, Option, none, some, refl,
  if◌then◌else◌, Bool-cases,
}
use reji_studio.Optimizer.{GpuCopyOptimizer}
use reji_studio.Optimizer.Lifecycle.{has}
use reji_studio.Optimizer.Submit.{
  Request, CopyAnswers, Submission, Submitted, is_valid, is_clear, submit, record_and_submit,
  execute_copy,
}
use reji_studio.Preview.{PendingFrame, PreviewWidget, PaintAnswers}
use reji_studio.Preview.Paint.{load_frame, fit_pool}
use reji_studio.Preview.Reading.{IsTarget, IsPlaced}

module _ (index : ℕ → ℕ) where
  -- The target of every slot that the bridge is asked for.
  abbrev pub IsBridge : PaintAnswers → Type 0
  IsBridge a = (slot : ℕ) → IsTarget index slot (a.execute_target slot)

  -- What a submission wrote is the image after the slot's.
  abbrev pub IsAimed : ℕ → Option Submission → Type 0
  IsAimed slot none = Unit
  IsAimed slot (some sub) = index sub.image ≡ (slot + 1) % 3

  abbrev pub IsPlacedOr : Option PendingFrame → Type 0
  IsPlacedOr none = Unit
  IsPlacedOr (some f) = IsPlaced index f

  IsAimed-if :
      (b : Bool) (slot : ℕ) (x y : Submitted)
      → IsAimed slot x.result
      → IsAimed slot y.result
      → IsAimed slot (if b then x else y).result
  IsAimed-if true slot x y p q = p
  IsAimed-if false slot x y p q = q

  recorded-IsAimed :
      (s : GpuCopyOptimizer) (q : Request) (a : CopyAnswers) (slot : ℕ) (from to : Option ℕ)
      → IsTarget index slot to
      → IsAimed slot (record_and_submit s q a from to).result
  unfolding record_and_submit submit
  recorded-IsAimed s q a slot (some from) (some to) h =
      IsAimed-if (not (a.reset_ok && a.begin_ok)) slot _ _ tt (
        IsAimed-if (not a.end_ok) slot _ _ tt
          (IsAimed-if (not a.submit_ok) slot _ _ tt (h to refl)))
  recorded-IsAimed s q a slot (some from) none h = tt
  recorded-IsAimed s q a slot none (some to) h = tt
  recorded-IsAimed s q a slot none none h = tt

  pub sent-IsAimed :
      (s : GpuCopyOptimizer) (q : Request) (a : CopyAnswers)
      → IsTarget index q.slot q.target
      → IsAimed q.slot (execute_copy s q a).result
  unfolding execute_copy
  sent-IsAimed s q a h = IsAimed-if (not (is_valid s q)) q.slot _ _ tt (
      IsAimed-if (not (is_clear s a)) q.slot _ _ tt
        (recorded-IsAimed s q a q.slot q.staging q.target h))

  IsTarget-if :
      (b : Bool) (slot : ℕ) (x y : PreviewWidget × Option ℕ)
      → IsTarget index slot x.1
      → IsTarget index slot y.1
      → IsTarget index slot (if b then x else y).1
  IsTarget-if true slot x y p q = p
  IsTarget-if false slot x y p q = q

  -- The target of the frame, or the one of the new pool.
  pub fitted-IsTarget :
      (w : PreviewWidget) (f : PendingFrame) (a : PaintAnswers)
      → IsPlaced index f
      → IsBridge a
      → IsTarget index f.slot (fit_pool w f a).1
  unfolding fit_pool
  fitted-IsTarget w f a placed ours =
      IsTarget-if (w.has_bridge && not ((f.frame_w == w.gl_pool_w) && (f.frame_h == w.gl_pool_h)))
        f.slot _ _ (ours f.slot) placed

  pub load-IsPlaced : (w : PreviewWidget) → IsPlaced index w.pending → IsPlacedOr (load_frame w).1
  unfolding load_frame
  load-IsPlaced w h = elim (Bool-cases (w.frame_dirty && has w.pending.staging)) [
    | inl new ↦ rw new h
    | inr old ↦ rw old tt
  ]
