-- ===== src/Interop.antt =====
-- src/pipeline/gpu_interop_subsystem.cpp: the bridge between D3D11 and Vulkan and the images of the
-- last frame. The bridge is foreign: it is there or not, and an image handle is a number, 0 for null.
use reji_studio.Base.{ℕ, Bool, false, ◌&&◌, not, Option, none, ◌==◌, if◌then◌else◌}

pub record GpuInteropSubsystem : Type 0 where
  pub has_bridge : Bool
  pub last_staging_vk : ℕ
  pub last_target_vk : ℕ
  pub last_slot : ℕ

abbrev pub new_interop : GpuInteropSubsystem
new_interop = record { has_bridge = false; last_staging_vk = 0; last_target_vk = 0; last_slot = 0 }

pub record FrameImages : Type 0 where
  pub staging : ℕ
  pub target : ℕ
  pub slot : ℕ

-- What the bridge answers, if there is one; `none` is the return value false.
unfoldable pub get_frame_images : GpuInteropSubsystem → Option FrameImages → Option FrameImages
get_frame_images g answer = if not g.has_bridge then none else answer

unfoldable pub cache_last_images : GpuInteropSubsystem → FrameImages → GpuInteropSubsystem
cache_last_images g i = record g {
  last_slot = i.slot;
  last_staging_vk = i.staging;
  last_target_vk = i.target;
}

unfoldable pub get_last_frame_images : GpuInteropSubsystem → FrameImages × Bool
get_last_frame_images g = (
  record { staging = g.last_staging_vk; target = g.last_target_vk; slot = g.last_slot },
  not (g.last_staging_vk == 0) && not (g.last_target_vk == 0),
)

unfoldable pub shutdown : GpuInteropSubsystem → GpuInteropSubsystem
shutdown g = new_interop
