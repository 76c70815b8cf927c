-- ===== src/Preview/Kept.antt =====
-- The stages of PreviewWidget::paintGL that leave its fences and its frame alone.
use reji_studio.Base.{ℕ, ◌≡◌, Bool, true, false, ◌&&◌, Option, refl, arith, if◌then◌else◌, ◌∙◌}
use reji_studio.Optimizer.Lifecycle.{has}
use reji_studio.Preview.{PendingFrame, PreviewWidget, PaintAnswers}
use reji_studio.Preview.Paint.{
  poll, load_frame, upload_cpu, fit_pool, fit_texture, make_memory, make_interop, import_target,
}

-- The same functions, fences and frame.
pub record IsAlike (w v : PreviewWidget) : Type 0 where
  pub waits : v.has_client_wait ≡ w.has_client_wait
  pub makes : v.has_fence_sync ≡ w.has_fence_sync
  pub fences : v.gl_draw_fences ≡ w.gl_draw_fences
  pub pending : v.pending ≡ w.pending

pub IsAlike-trans : (u v w : PreviewWidget) → IsAlike u v → IsAlike v w → IsAlike u w
IsAlike-trans u v w p q = record {
  waits = q.waits ∙ p.waits;
  makes = q.makes ∙ p.makes;
  fences = q.fences ∙ p.fences;
  pending = q.pending ∙ p.pending;
}

pub IsAlike-if :
    (b : Bool) (u v w : PreviewWidget) → IsAlike u v → IsAlike u w → IsAlike u (if b then v else w)
IsAlike-if true u v w p q = p
IsAlike-if false u v w p q = q

pub same : (w : PreviewWidget) → IsAlike w w
same w = record { waits = refl; makes = refl; fences = refl; pending = refl }

pub poll-IsAlike : (w : PreviewWidget) (reached : Bool) → IsAlike w (poll w reached)
unfolding poll
poll-IsAlike w reached = record {
  waits = ground arith;
  makes = ground arith;
  fences = ground arith;
  pending = ground arith;
}

pub load-IsAlike : (w : PreviewWidget) → IsAlike w (load_frame w).0
unfolding load_frame
load-IsAlike w = record {
  waits = ground arith;
  makes = ground arith;
  fences = ground arith;
  pending = ground arith;
}

pub upload-IsAlike : (w : PreviewWidget) (fresh : ℕ) → IsAlike w (upload_cpu w fresh)
unfolding upload_cpu
upload-IsAlike w fresh = record {
  waits = ground arith;
  makes = ground arith;
  fences = ground arith;
  pending = ground arith;
}

pub pool-IsAlike :
    (w : PreviewWidget) (f : PendingFrame) (a : PaintAnswers) → IsAlike w (fit_pool w f a).0
unfolding fit_pool
pool-IsAlike w f a = record {
  waits = ground arith;
  makes = ground arith;
  fences = ground arith;
  pending = ground arith;
}

pub texture-IsAlike :
    (w : PreviewWidget) (f : PendingFrame) (fresh : ℕ) → IsAlike w (fit_texture w f fresh)
unfolding fit_texture
texture-IsAlike w f fresh = record {
  waits = ground arith;
  makes = ground arith;
  fences = ground arith;
  pending = ground arith;
}

pub memory-IsAlike :
    (w : PreviewWidget) (slot : ℕ) (fresh : Option ℕ) → IsAlike w (make_memory w slot fresh)
unfolding make_memory
memory-IsAlike w slot fresh = record {
  waits = ground arith;
  makes = ground arith;
  fences = ground arith;
  pending = ground arith;
}

pub interop-IsAlike :
    (w : PreviewWidget) (f : PendingFrame) (fresh : Option ℕ) → IsAlike w (make_interop w f fresh)
unfolding make_interop
interop-IsAlike w f fresh = record {
  waits = ground arith;
  makes = ground arith;
  fences = ground arith;
  pending = ground arith;
}

pub import-IsAlike :
    (w : PreviewWidget) (f : PendingFrame) (a : PaintAnswers) → IsAlike w (import_target w f a)
unfolding import_target
import-IsAlike w f a =
    let m = make_memory w f.slot a.new_memory in
    IsAlike-if (w.has_bridge && (has w.gl_target_image && (w.has_import && a.nt_handle))) w
      (make_interop m f a.new_interop) w
      (IsAlike-trans w m (make_interop m f a.new_interop) (memory-IsAlike w f.slot a.new_memory)
        (interop-IsAlike m f a.new_interop))
      (same w)
