-- ===== src/Optimizer.antt =====
-- src/pipeline/copy_optimizer.h and copy_optimizer.cpp: the copy of a captured frame into an image that
-- OpenGL shows, on a Vulkan queue. Vulkan is foreign: its answers are arguments, and a journal keeps the
-- commands recorded, the submissions, and the pools and semaphores made and destroyed. A handle is known
-- by its number. Exceptions and the faults that the SEH filter catches are left out, and so is the build
-- with REJI_VULKAN_MOCK, in which init and execute_copy only fail.
pub mod Lifecycle
pub mod Submit
pub mod Timeline
pub mod Opening
pub mod Stall
pub mod Signals
use reji_studio.Base.{ℕ, Bool, true, false, Option, none, some}

-- The layouts that occur.
pub data Layout : Type 0 where
  undefined : Layout
  transfer_src : Layout
  transfer_dst : Layout
  shader_read_only : Layout

-- submitted: the timeline's value, the command buffer's slot, the slot whose GL semaphore is signalled
-- if one is, and the memory whose keyed mutex is taken and given if one is.
pub data VkCall : Type 0 where
  made_pool : ℕ → VkCall
  destroyed_pool : ℕ → VkCall
  made_semaphore : ℕ → VkCall
  destroyed_semaphore : ℕ → VkCall
  barrier : ℕ → Layout → Layout → VkCall
  blit : ℕ → ℕ → ℕ → ℕ → VkCall
  copy_image : ℕ → ℕ → ℕ → ℕ → VkCall
  submitted : ℕ → ℕ → Option ℕ → Option ℕ → VkCall
  gl_cleared : ℕ → VkCall

-- GpuCopyOptimizer. Of the command buffers, of the devices' handles and of the two functions only
-- whether they are held; the structures of the submission stand in the journal.
pub record GpuCopyOptimizer : Type 0 where
  pub has_device : Bool
  pub has_queue : Bool
  pub has_phys_device : Bool
  pub command_pool : Option ℕ
  pub has_buffers : Bool
  pub timeline_semaphore : Option ℕ
  pub timeline_counter : ℕ
  pub signal_value : ℕ
  pub staging_layouts : ℕ → Layout
  pub target_layouts : ℕ → Layout
  pub slot_gl_signaled : ℕ → Bool
  pub km_memory : Option ℕ
  pub has_get_counter : Bool
  pub has_wait : Bool
  pub alive : Bool
  pub use_blit : Bool
  pub graphics_queue_family : ℕ

abbrev pub new_optimizer : GpuCopyOptimizer
new_optimizer = record {
  has_device = false;
  has_queue = false;
  has_phys_device = false;
  command_pool = none;
  has_buffers = false;
  timeline_semaphore = none;
  timeline_counter = 0;
  signal_value = 0;
  staging_layouts = λ i. undefined;
  target_layouts = λ i. undefined;
  slot_gl_signaled = λ i. false;
  km_memory = none;
  has_get_counter = false;
  has_wait = false;
  alive = true;
  use_blit = true;
  graphics_queue_family = 0;
}

-- kGpuPoolSize of include/reji_constants.h.
abbrev pub pool_size : ℕ
pool_size = 3
