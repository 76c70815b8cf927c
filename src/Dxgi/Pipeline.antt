-- ===== src/Dxgi/Pipeline.antt =====
-- DxgiCapturePipeline of capture_dxgi.h and capture_dxgi.cpp: its state, init and shutdown.
use reji_studio.Base.{ℕ, Bool, true, false, not, Option, none, some, List, [], ◌++◌, if◌then◌else◌}
use reji_studio.Dxgi.{DxgiCall, DxgiCaptureSession, new_session}
use reji_studio.Dxgi.Session
use reji_studio.Dxgi.Session.{DuplicationAnswers}
use reji_studio.Pipeline.State.{GpuEntry}
use reji_studio.Dxgi.Adapters.{Adapter, scan_gpus, find_display_adapter, find_encode_adapter}
use reji_studio.Dxgi.Transfer
use reji_studio.Dxgi.Transfer.{GpuResourceManager, new_manager, ManagerAnswers}

-- The configuration, the scan, the parts, and the textures of the preview. A context is known by its
-- adapter; of the keyed mutex and the fence only whether they are held. The profiler is left out, and
-- the lock around preview_cb_ guards that flag alone.
pub record DxgiCapturePipeline : Type 0 where
  pub output_index : ℕ
  pub timeout_ms : ℕ
  pub allow_cross_adapter : Bool
  pub gpu_scan : List GpuEntry
  pub display_ctx : Option ℕ
  pub encode_ctx : Option ℕ
  pub capture : Option DxgiCaptureSession
  pub resource_mgr : Option GpuResourceManager
  pub preview_staging : Option ℕ
  pub shared_texture : Option ℕ
  pub staging_texture : Option ℕ
  pub keyed_mutex_shared : Bool
  pub use_keyed_mutex : Bool
  pub amd_copy_fence : Bool
  pub preview_staging_dirty : Bool
  pub preview_mapped : Bool
  pub preview_cb : Bool
  pub initialized : Bool

-- What init is answered: by CreateDXGIFactory1 and EnumAdapters1, by D3D11CreateDevice for each
-- context, and in its parts.
pub record InitAnswers : Type 0 where
  pub adapters : Option (List Adapter)
  pub display_device : Bool
  pub encode_device : Bool
  pub duplication : DuplicationAnswers
  pub textures : ManagerAnswers

pub record Started : Type 0 where
  pub state : DxgiCapturePipeline
  pub ok : Bool
  pub calls : List DxgiCall

abbrev pub fails : DxgiCapturePipeline → List DxgiCall → Started
fails p calls = record { state = p; ok = false; calls = calls }

-- The destructors of the session and of the resource manager, which shut them down.
unfoldable pub drop_session : Option DxgiCaptureSession → List DxgiCall
drop_session none = []
drop_session (some s) = (Session.shutdown s).1

unfoldable pub drop_manager : Option GpuResourceManager → List DxgiCall
drop_manager none = []
drop_manager (some m) = (Transfer.shutdown m).1

unfoldable pub with_manager :
    DxgiCapturePipeline → InitAnswers → DxgiCaptureSession → List DxgiCall → Started
unfolding drop_manager
with_manager p a s calls =
    let o = Transfer.init new_manager s.width s.height a.textures in
    let made = record p { resource_mgr = some o.manager } in
    let all = calls ++ (drop_manager p.resource_mgr ++ o.calls) in
    if not o.ok
    then fails made all
    else record { state = record made { initialized = true }; ok = true; calls = all }

unfoldable pub with_session : DxgiCapturePipeline → InitAnswers → Started
unfolding with_manager drop_session
with_session p a =
    let o = Session.init new_session p.output_index p.timeout_ms a.duplication in
    let made = record p { capture = some (o.0) } in
    let gone = drop_session p.capture in
    if not o.1 then fails made gone else with_manager made a (o.0) gone

unfoldable pub with_contexts : DxgiCapturePipeline → InitAnswers → Adapter → Adapter → Started
unfolding with_session
with_contexts p a display encode =
    let shown = record p { display_ctx = some display.pointer } in
    let both = record shown { encode_ctx = some encode.pointer } in
    if not a.display_device
    then fails shown []
    else if not a.encode_device
    then fails both []
    else with_session both a

unfoldable pub on_display :
    DxgiCapturePipeline → InitAnswers → List Adapter → Option Adapter → Started
unfolding with_contexts
on_display p a adapters none = fails p []
on_display p a adapters (some display) =
    with_contexts p a display (find_encode_adapter p.allow_cross_adapter adapters display)

unfoldable pub on_factory : DxgiCapturePipeline → InitAnswers → Option (List Adapter) → Started
unfolding on_display
on_factory p a none = fails p []
on_factory p a (some adapters) =
    on_display (record p { gpu_scan = (scan_gpus adapters).0 }) a adapters
      (find_display_adapter adapters)

unfoldable pub init :
    DxgiCapturePipeline → (output_index timeout_ms : ℕ) → Bool → InitAnswers → Started
unfolding on_factory
init p output_index timeout_ms allow_cross_adapter a =
    on_factory
      (record p {
        output_index = output_index;
        timeout_ms = timeout_ms;
        allow_cross_adapter = allow_cross_adapter;
      })
      a a.adapters

-- The textures of the preview and the flags of the mapping are kept.
unfoldable pub shutdown : DxgiCapturePipeline → DxgiCapturePipeline × List DxgiCall
unfolding drop_session drop_manager
shutdown p = (
  record p {
    initialized = false;
    resource_mgr = none;
    capture = none;
    encode_ctx = none;
    display_ctx = none;
  },
  drop_manager p.resource_mgr ++ drop_session p.capture,
)

abbrev width_of : Option DxgiCaptureSession → ℕ
width_of none = 0
width_of (some s) = s.width

abbrev height_of : Option DxgiCaptureSession → ℕ
height_of none = 0
height_of (some s) = s.height

unfoldable pub width : DxgiCapturePipeline → ℕ
width p = width_of p.capture

unfoldable pub height : DxgiCapturePipeline → ℕ
height p = height_of p.capture

abbrev crosses : Option GpuResourceManager → Bool
crosses none = false
crosses (some m) = not m.same_adapter

unfoldable pub is_cross_adapter : DxgiCapturePipeline → Bool
is_cross_adapter p = crosses p.resource_mgr
