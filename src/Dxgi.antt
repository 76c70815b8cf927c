-- ===== src/Dxgi.antt =====
-- src/pipeline/capture/capture_dxgi.h, capture_dxgi.cpp and gpu_resource_manager.cpp: the capture of
-- the desktop by DXGI, the transfer to the encoder's adapter and the preview's textures. DXGI and
-- D3D11 are foreign: their answers are arguments, and a journal keeps what is asked of them. A texture,
-- a handle or a device is known by its pointer; what a texture shows and the log are left out.
pub mod Session
pub mod Adapters
pub mod Transfer
pub mod Delivery
pub mod Spin
pub mod Pipeline
pub mod Frame
pub mod Held
pub mod Next
pub mod Starts
pub mod Life
pub mod Returns
pub mod Stranded
pub mod Preview
use reji_studio.Base.{ℕ, suc, ◌-◌, ◌%◌, ◌^◌, Bool, true, false, Option, List, []}
use reji_studio.Base.Int.{ℤ, pos, negsuc, ◌-ℤ◌}

-- An HRESULT: S_OK, another code of success, or a failure.
pub data Hr : Type 0 where
  s_ok : Hr
  s_other : Hr
  hr_failed : Hr

abbrev pub is_ok : Hr → Bool
is_ok s_ok = true
is_ok _ = false

abbrev pub succeeded : Hr → Bool
succeeded hr_failed = false
succeeded _ = true

-- What is asked of DXGI and D3D11. A call through a null duplication_ is `null_call`: in the program it
-- is an access violation.
pub data DxgiCall : Type 0 where
  acquired : DxgiCall
  released : DxgiCall
  null_call : DxgiCall
  copied : Option ℕ → Option ℕ → DxgiCall
  mapped : Option ℕ → DxgiCall
  unmapped : Option ℕ → DxgiCall
  rows_copied : ℕ → ℕ → ℕ → DxgiCall
  flushed : DxgiCall
  took_key : ℕ → DxgiCall
  gave_key : ℕ → DxgiCall
  exported : ℕ → DxgiCall
  closed_handle : ℕ → DxgiCall

-- static_cast<uint32_t> of a signed difference.
abbrev pub to_u32 : ℤ → ℕ
to_u32 (pos n) = n % 2 ^ 32
to_u32 (negsuc n) = 2 ^ 32 - suc (n % 2 ^ 32)

-- RECT.
pub record Rect : Type 0 where
  pub left : ℤ
  pub top : ℤ
  pub right : ℤ
  pub bottom : ℤ

-- DxgiCaptureSession::Config and the session; the profiler is left out, and of the device and the
-- adapter only whether they are held.
pub record DxgiCaptureSession : Type 0 where
  pub output_index : ℕ
  pub timeout_ms : ℕ
  pub has_device : Bool
  pub has_duplication : Bool
  pub frame_tex : Option ℕ
  pub surface_format : ℕ
  pub width : ℕ
  pub height : ℕ
  pub frame_held : Bool
  pub needs_reinit : Bool
  pub initialized : Bool

-- CaptureFrame.
pub record CaptureFrame : Type 0 where
  pub texture : ℕ
  pub frame_width : ℕ
  pub frame_height : ℕ
  pub format : ℕ
  pub present_time : ℤ

abbrev pub new_session : DxgiCaptureSession
new_session = record {
  output_index = 0;
  timeout_ms = 17;
  has_device = false;
  has_duplication = false;
  frame_tex = Option.none;
  surface_format = 0;
  width = 0;
  height = 0;
  frame_held = false;
  needs_reinit = false;
  initialized = false;
}
