-- ===== src/Preview.antt =====
-- src/ui/preview_widget.cpp: paintGL, which has each new frame copied for OpenGL and draws; and
-- src/pipeline/gpu/external_memory_bridge.cpp with slot_ring.h: the slot of each frame. OpenGL and the
-- bridge's Zig code are foreign: their answers are arguments, and a journal keeps the copies that write
-- an image, the waits and the draws. Qt, the shader and the profiler are left out.
pub mod Bridge
pub mod Paint
pub mod Reading
pub mod Kept
pub mod Aimed
pub mod Copying
pub mod Fences
use reji_studio.Base.{ℕ, Bool, Option}
use reji_studio.Optimizer.{GpuCopyOptimizer}
use reji_studio.Optimizer.Submit.{CopyAnswers}

-- The images and the size of a frame, and the slot of the bridge that made them.
pub record PendingFrame : Type 0 where
  pub staging : Option ℕ
  pub target : Option ℕ
  pub frame_w : ℕ
  pub frame_h : ℕ
  pub slot : ℕ

-- PreviewWidget and its Impl, as paintGL uses them: an object of OpenGL is known by its name, a function
-- of OpenGL is found or not, and the optimizer is the one the widget was given.
pub record PreviewWidget : Type 0 where
  pub optimizer : Option GpuCopyOptimizer
  pub has_bridge : Bool
  pub frame_dirty : Bool
  pub pending : PendingFrame
  pub cpu_frame_dirty : Bool
  pub cpu_w : ℕ
  pub cpu_h : ℕ
  pub has_pending_copy : Bool
  pub timeline_semaphore : Option ℕ
  pub expected_value : ℕ
  pub poll_frames : ℕ
  pub tex_id : Option ℕ
  pub tex_w : ℕ
  pub tex_h : ℕ
  pub gl_pool_w : ℕ
  pub gl_pool_h : ℕ
  pub gl_target_w : ℕ
  pub gl_target_h : ℕ
  pub gl_target_image : Option ℕ
  pub current_pool_idx : ℕ
  pub gl_memory_objects : ℕ → Option ℕ
  pub gl_interop_textures : ℕ → Option ℕ
  pub gl_draw_fences : ℕ → Option ℕ
  pub gl_sync_semaphores : ℕ → Bool
  pub has_import : Bool
  pub has_create_memory : Bool
  pub has_delete_memory : Bool
  pub has_tex_storage : Bool
  pub has_wait_semaphore : Bool
  pub has_fence_sync : Bool
  pub has_client_wait : Bool

-- What one paintGL is answered: by the poll of the semaphore; new names for the textures and the memory
-- object; by the bridge; by the wait on a fence; by Vulkan; and the fence after the draw.
pub record PaintAnswers : Type 0 where
  pub reached : Bool
  pub new_tex : ℕ
  pub execute_target : ℕ → Option ℕ
  pub gl_sync_sem : Option ℕ
  pub shared_memory : Option ℕ
  pub fence_signaled : Bool
  pub copy : CopyAnswers
  pub nt_handle : Bool
  pub new_memory : Option ℕ
  pub new_interop : Option ℕ
  pub new_fence : Option ℕ

-- A wait on the fence of a slot's draws, a copy that writes an image, which is known by its handle, a
-- wait on the GPU for a slot's copy, a draw of a slot's texture.
pub data PaintCall : Type 0 where
  passed_fence : ℕ → PaintCall
  wrote : ℕ → PaintCall
  waited_semaphore : ℕ → PaintCall
  drew : ℕ → PaintCall
