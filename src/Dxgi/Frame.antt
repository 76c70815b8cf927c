-- ===== src/Dxgi/Frame.antt =====
-- DxgiCapturePipeline::capture_next of capture_dxgi.cpp.
use reji_studio.Base.{ℕ, true, ◌&&◌, not, Option, none, some, List, [], ◌∷◌, ◌++◌, if◌then◌else◌}
use reji_studio.Dxgi.{
  Hr, is_ok, DxgiCall, null_call, copied, flushed, took_key, gave_key, DxgiCaptureSession,
  CaptureFrame,
}
use reji_studio.Dxgi.Session.{DuplicationAnswers, reinit, release_frame, AcquireAnswer, acquire}
use reji_studio.Dxgi.Transfer.{GpuResourceManager, is_held, TransferAnswers, transfer}
use reji_studio.Dxgi.Spin.{
  FencePoll, SpinEnd, copy_done, fence_lost, spin_timeout, spinning, spin_loop,
}
use reji_studio.Dxgi.Pipeline.{DxgiCapturePipeline}
use reji_studio.Dxgi.Preview.{PreviewAnswers, ensure_preview_staging}

-- kKeyedMutexKeyD3D11 and kKeyedMutexKeyVulkan of include/reji_constants.h.
abbrev pub key_d3d11 : ℕ
key_d3d11 = 0

abbrev pub key_vulkan : ℕ
key_vulkan = 1

-- What capture_next is answered, in its parts; by AcquireSync and ReleaseSync; by the clock before the
-- wait, and by each poll of it.
pub record NextAnswers : Type 0 where
  pub preview : PreviewAnswers
  pub duplication : DuplicationAnswers
  pub next : AcquireAnswer
  pub transferred : TransferAnswers
  pub take_key : Hr
  pub give_key : Hr
  pub start : ℕ
  pub polls : ℕ → FencePoll

-- The result is the texture, or null; `faults` is a call through a null pointer, which does not return;
-- `hangs` stands for a wait that has not ended in the rounds given.
pub data Result : Type 0 where
  returned : Option ℕ → Result
  faults : Result
  hangs : Result

pub record Captured : Type 0 where
  pub state : DxgiCapturePipeline
  pub result : Result
  pub calls : List DxgiCall

-- Where the copy to the shared texture leaves the frame: to go on with, to drop, or in the wait.
pub data Shared : Type 0 where
  go_on : Shared
  drop_frame : Shared
  in_wait : Shared

abbrev pub of_spin : SpinEnd → Shared
of_spin copy_done = go_on
of_spin fence_lost = drop_frame
of_spin spin_timeout = drop_frame
of_spin spinning = in_wait

unfoldable pub copy_keyed : DxgiCapturePipeline → ℕ → NextAnswers → Shared × List DxgiCall
copy_keyed p tex a =
    let copy = copied p.shared_texture (some tex) in
    if not (is_ok a.take_key)
    then (drop_frame, [])
    else if not (is_ok a.give_key)
    then (drop_frame, took_key key_d3d11 ∷ copy ∷ [])
    else (go_on, took_key key_d3d11 ∷ copy ∷ gave_key key_vulkan ∷ [])

unfoldable pub copy_flushed : ℕ → DxgiCapturePipeline → ℕ → NextAnswers → Shared × List DxgiCall
copy_flushed rounds p tex a = (
  of_spin (if p.amd_copy_fence then spin_loop rounds 0 a.start a.polls else copy_done),
  copied p.shared_texture (some tex) ∷ flushed ∷ [],
)

unfoldable pub copy_shared : ℕ → DxgiCapturePipeline → ℕ → NextAnswers → Shared × List DxgiCall
unfolding copy_keyed copy_flushed
copy_shared rounds p tex a =
    if not (is_held p.shared_texture)
    then (go_on, [])
    else if p.use_keyed_mutex && p.keyed_mutex_shared
    then copy_keyed p tex a
    else copy_flushed rounds p tex a

-- The copies to staging_texture_ and to preview_staging_.
unfoldable pub stage : DxgiCapturePipeline → ℕ → DxgiCapturePipeline × List DxgiCall
stage p tex =
    let legacy =
      if is_held p.preview_staging then copied p.preview_staging (some tex) ∷ [] else [] in
    if is_held p.staging_texture
    then (record p { preview_staging_dirty = true }, copied p.staging_texture (some tex) ∷ legacy)
    else (p, legacy)

-- From release_frame on, with what is returned.
unfoldable pub let_go :
    DxgiCapturePipeline → DxgiCaptureSession → Option ℕ → List DxgiCall → Captured
let_go p s tex calls =
    let freed = release_frame s in
    record {
      state = record p { capture = some (freed.0) };
      result = returned tex;
      calls = calls ++ freed.1;
    }

unfoldable pub after_shared :
    DxgiCapturePipeline → DxgiCaptureSession → ℕ → Option ℕ → List DxgiCall → Shared → Captured
unfolding let_go stage
after_shared p s tex encode_tex calls go_on =
    let staged = stage p tex in let_go (staged.0) s encode_tex (calls ++ staged.1)
after_shared p s tex encode_tex calls drop_frame = let_go p s none calls
after_shared p s tex encode_tex calls in_wait = record {
  state = record p { capture = some s };
  result = hangs;
  calls = calls;
}

-- From acquire's answer on.
unfoldable pub on_frame :
    ℕ
    → DxgiCapturePipeline
    → GpuResourceManager
    → NextAnswers
    → DxgiCaptureSession
    → Option CaptureFrame
    → List DxgiCall
    → Captured
unfolding after_shared
on_frame rounds p m a s none calls = record {
  state = record p { capture = some s };
  result = returned none;
  calls = calls;
}
on_frame rounds p m a s (some frame) calls =
    let sent = transfer m frame.texture a.transferred in
    let shared = copy_shared rounds p frame.texture a in
    after_shared p s frame.texture (sent.0) (calls ++ (sent.1 ++ shared.1)) (shared.0)

unfoldable pub acquire_on :
    ℕ
    → DxgiCapturePipeline
    → GpuResourceManager
    → NextAnswers
    → DxgiCaptureSession
    → List DxgiCall
    → Captured
unfolding on_frame
acquire_on rounds p m a s calls =
    let o = acquire s a.next in
    let done = on_frame rounds p m a o.session o.frame (calls ++ o.calls) in
    if not o.faulted then done else record {
      state = record p { capture = some o.session };
      result = faults;
      calls = calls ++ o.calls;
    }

unfoldable pub with_parts :
    ℕ
    → DxgiCapturePipeline
    → NextAnswers
    → Option DxgiCaptureSession
    → Option GpuResourceManager
    → Captured
unfolding acquire_on
with_parts rounds p a (some s) (some m) =
    let again = reinit s a.duplication in
    if not s.needs_reinit
    then acquire_on rounds p m a s []
    else if not (again.1)
    then record {
      state = record p { capture = some (again.0) };
      result = returned none;
      calls = again.2;
    }
    else acquire_on rounds p m a (again.0) (again.2)
with_parts rounds p a _ _ = record { state = p; result = faults; calls = null_call ∷ [] }

-- `rounds` bounds the rounds of the wait for the copy.
unfoldable pub capture_next : ℕ → DxgiCapturePipeline → NextAnswers → Captured
unfolding with_parts
capture_next rounds p a =
    let q = ensure_preview_staging p a.preview in
    if not q.initialized
    then record { state = q; result = returned none; calls = [] }
    else with_parts rounds q a q.capture q.resource_mgr
