-- ===== src/Preview/Paint.antt =====
-- PreviewWidget::paintGL of src/ui/preview_widget.cpp.
use reji_studio.Base.{
  ℕ, ◌+◌, ◌%◌, Bool, true, false, ◌&&◌, ◌||◌, not, Option, none, some, List, [], ◌∷◌, ◌++◌, ◌==◌,
  ltb, update, if◌then◌else◌,
}
use reji_studio.Optimizer.{GpuCopyOptimizer}
use reji_studio.Optimizer.Lifecycle.{has, is_copy_ready}
use reji_studio.Optimizer.Submit.{
  Request, Submission, execute_copy, is_slot_signaled, clear_gl_signal,
}
use reji_studio.Preview.{
  PendingFrame, PreviewWidget, PaintAnswers, PaintCall, passed_fence, wrote, waited_semaphore, drew,
}

unfoldable pub is_reached : Option GpuCopyOptimizer → Option ℕ → Bool → Bool
unfolding is_copy_ready
is_reached none semaphore reached = false
is_reached (some o) semaphore reached = is_copy_ready o semaphore reached

-- A frame from the pipeline; one that has not been painted yet is replaced.
unfoldable pub submit_d3d11_frame : PreviewWidget → PendingFrame → PreviewWidget × Bool
submit_d3d11_frame w f =
    if (not (has f.staging) || not (has f.target)) || ((f.frame_w == 0) || (f.frame_h == 0))
    then (w, false)
    else (record w { pending = f; frame_dirty = true }, true)

-- The poll of a copy that is pending; after 50 polls it is given up.
unfoldable pub poll : PreviewWidget → Bool → PreviewWidget
unfolding is_reached
poll w reached =
    if not w.has_pending_copy
    then w
    else if is_reached w.optimizer w.timeline_semaphore reached
    then record w { has_pending_copy = false; poll_frames = 0 }
    else if ltb 50 (w.poll_frames + 1)
    then record w { has_pending_copy = false; poll_frames = 0 }
    else record w { poll_frames = w.poll_frames + 1 }

-- The new frame, if there is one.
unfoldable pub load_frame : PreviewWidget → PreviewWidget × Option PendingFrame
load_frame w =
    if w.frame_dirty && has w.pending.staging
    then (record w { frame_dirty = false; has_pending_copy = false }, some w.pending)
    else (w, none)

abbrev pub or_new : Option ℕ → ℕ → Option ℕ
or_new none fresh = some fresh
or_new (some x) fresh = some x

-- The frame from the processor, and its upload.
unfoldable pub upload_cpu : PreviewWidget → ℕ → PreviewWidget
upload_cpu w fresh =
    let taken = record w { cpu_frame_dirty = false } in
    if not w.cpu_frame_dirty
    then w
    else if (w.cpu_w == 0) || (w.cpu_h == 0)
    then taken
    else record taken { tex_id = or_new w.tex_id fresh; tex_w = w.cpu_w; tex_h = w.cpu_h }

unfoldable pub no_objects : (ℕ → Option ℕ) → ℕ → Option ℕ
no_objects f i = if ltb i 3 then none else f i

-- A pool of another size is made anew, and the objects made from it are deleted; out: the image to write.
unfoldable pub fit_pool : PreviewWidget → PendingFrame → PaintAnswers → PreviewWidget × Option ℕ
unfolding no_objects
fit_pool w f a =
    if w.has_bridge && not ((f.frame_w == w.gl_pool_w) && (f.frame_h == w.gl_pool_h))
    then (
      record w {
        gl_interop_textures = no_objects w.gl_interop_textures;
        gl_memory_objects =
            if w.has_delete_memory then no_objects w.gl_memory_objects else w.gl_memory_objects;
        gl_pool_w = f.frame_w;
        gl_pool_h = f.frame_h;
      },
      a.execute_target f.slot,
    )
    else (w, f.target)

unfoldable pub fit_texture : PreviewWidget → PendingFrame → ℕ → PreviewWidget
fit_texture w f fresh =
    if not ((f.frame_w == w.tex_w) && (f.frame_h == w.tex_h))
    then record w { tex_id = some fresh; tex_w = f.frame_w; tex_h = f.frame_h }
    else w

-- The memory object of the slot, made from the bridge's handle.
unfoldable pub make_memory : PreviewWidget → ℕ → Option ℕ → PreviewWidget
make_memory w slot fresh =
    if not (has (w.gl_memory_objects slot)) && w.has_create_memory
    then record w { gl_memory_objects = update w.gl_memory_objects slot fresh }
    else w

-- The texture on that memory; one of another size is deleted first.
unfoldable pub make_interop : PreviewWidget → PendingFrame → Option ℕ → PreviewWidget
make_interop w f fresh =
    let fits = (f.frame_w == w.gl_target_w) && (f.frame_h == w.gl_target_h) in
    let kept = if fits then w.gl_interop_textures f.slot else none in
    let tex = if has kept then kept else fresh in
    let made = record w { gl_interop_textures = update w.gl_interop_textures f.slot tex } in
    if not (has (w.gl_memory_objects f.slot))
    then w
    else if has tex && w.has_tex_storage
    then record made { gl_target_w = f.frame_w; gl_target_h = f.frame_h }
    else made

unfoldable pub import_target : PreviewWidget → PendingFrame → PaintAnswers → PreviewWidget
unfolding make_memory make_interop
import_target w f a =
    if w.has_bridge && (has w.gl_target_image && (w.has_import && a.nt_handle))
    then make_interop (make_memory w f.slot a.new_memory) f a.new_interop
    else w

pub record Painted : Type 0 where
  pub widget : PreviewWidget
  pub goes_on : Bool
  pub calls : List PaintCall

-- gl_signal_slot, of a slot's frame.
unfoldable pub written : ℕ → ℕ
written slot = (slot + 1) % 3

unfoldable pub request_of : PreviewWidget → PendingFrame → Option ℕ → PaintAnswers → Request
unfolding written
request_of w f target a = record {
  staging = f.staging;
  target = target;
  width = f.frame_w;
  height = f.frame_h;
  slot = f.slot;
  gl_signal_slot = written f.slot;
  outs_given = true;
  gl_sync_sem = if w.has_bridge then a.gl_sync_sem else none;
  staging_memory = if w.has_bridge then a.shared_memory else none;
}

-- After execute_copy, with the waits before it.
unfoldable pub after_copy :
    PreviewWidget
    → PendingFrame
    → PaintAnswers
    → GpuCopyOptimizer
    → List PaintCall
    → Option Submission
    → Painted
unfolding import_target
after_copy w f a o calls none = record {
  widget = record w { optimizer = some o };
  goes_on = false;
  calls = calls;
}
after_copy w f a o calls (some sub) = record {
  widget =
      record (import_target (record w { optimizer = some o; gl_target_image = some sub.image }) f
        a) {
          timeline_semaphore = sub.semaphore;
          expected_value = sub.value;
          has_pending_copy = true;
        };
  goes_on = true;
  calls = calls ++ (wrote sub.image ∷ []);
}

-- The wait on the fence of the image that is to be written.
unfoldable pub has_fence : PreviewWidget → ℕ → Bool
has_fence w slot = has (w.gl_draw_fences slot) && w.has_client_wait

unfoldable pub copy_frame :
    PreviewWidget → PendingFrame → PaintAnswers → Option GpuCopyOptimizer → Painted
unfolding fit_pool fit_texture has_fence written request_of after_copy
copy_frame w f a none = record { widget = w; goes_on = false; calls = [] }
copy_frame w f a (some o) =
    let fitted = fit_pool w f a in
    let ready = record (fit_texture (fitted.0) f a.new_tex) { current_pool_idx = f.slot } in
    let fenced = has_fence ready (written f.slot) in
    let sent = execute_copy o (request_of ready f (fitted.1) a) a.copy in
    if fenced && not a.fence_signaled
    then record { widget = ready; goes_on = false; calls = [] }
    else after_copy ready f a sent.state (if fenced then passed_fence (written f.slot) ∷ [] else [])
        sent.result

unfoldable pub on_new_frame : PreviewWidget → PaintAnswers → Option PendingFrame → Painted
unfolding copy_frame
on_new_frame w a none = record { widget = w; goes_on = true; calls = [] }
on_new_frame w a (some f) = copy_frame w f a w.optimizer

abbrev pub signaled_by : Option GpuCopyOptimizer → ℕ → Bool
signaled_by none slot = false
signaled_by (some o) slot = is_slot_signaled o slot

abbrev pub cleared_by : Option GpuCopyOptimizer → ℕ → Option GpuCopyOptimizer
cleared_by none slot = none
cleared_by (some o) slot = some (clear_gl_signal o slot)

-- The wait on the GPU for the slot's copy.
unfoldable pub wait_signal : PreviewWidget → PreviewWidget × List PaintCall
wait_signal w =
    let slot = w.current_pool_idx in
    if has (w.gl_interop_textures slot)
      && (w.has_wait_semaphore && (w.gl_sync_semaphores slot && signaled_by w.optimizer slot))
    then (record w { optimizer = cleared_by w.optimizer slot }, waited_semaphore slot ∷ [])
    else (w, [])

-- The draw, and its fence.
unfoldable pub render : PreviewWidget → Option ℕ → PreviewWidget × List PaintCall
unfolding wait_signal
render w fence =
    let slot = w.current_pool_idx in
    let waited = wait_signal w in
    let interop = has (w.gl_interop_textures slot) in
    if not interop && not (has w.tex_id) then (w, []) else (
      record (waited.0) {
        gl_draw_fences =
            update (waited.0).gl_draw_fences slot (if w.has_fence_sync then fence else none);
      },
      waited.1 ++ (if interop then drew slot ∷ [] else []),
    )

unfoldable pub paint_gl : PreviewWidget → PaintAnswers → PreviewWidget × List PaintCall
unfolding poll load_frame upload_cpu on_new_frame render
paint_gl w a =
    let loaded = load_frame (poll w a.reached) in
    let o = on_new_frame (upload_cpu (loaded.0) a.new_tex) a (loaded.1) in
    let drawn = render o.widget a.new_fence in
    if o.goes_on then (drawn.0, o.calls ++ drawn.1) else (o.widget, o.calls)
