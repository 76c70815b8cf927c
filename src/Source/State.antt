-- ===== src/Source/State.antt =====
-- src/pipeline/include/i_source.h and i_screen_capture.h: frames, states, metadata. A D3D11 device
-- or texture is known by a number; a null pointer is `none`.
use reji_studio.Base.{ℕ, Option}

pub data HandleType : Type 0 where
  d3d11 dma_buf io_surface cpu_buffer : HandleType

pub record CapturedFrame : Type 0 where
  pub type : HandleType
  pub handle : Option ℕ
  pub width : ℕ
  pub height : ℕ
  pub timestamp_us : ℕ

pub record SourceFrame : Type 0 where
  pub type : HandleType
  pub handle : Option ℕ
  pub width : ℕ
  pub height : ℕ
  pub format : ℕ
  pub timestamp_us : ℕ

pub data SourceState : Type 0 where
  uninitialized running needs_reinit lost : SourceState

pub record SourceMetadata : Type 0 where
  pub width : ℕ
  pub height : ℕ
  pub format : ℕ
  pub device : Option ℕ
